-- ===== src/Util/Base64/RoundTrip.antt =====
-- `base642Uint8Array` of util/base64.js against the encoder of RFC 4648.
use webtransport_gos.Prelude.{
  ℕ, zero, suc, ◌+◌, ◌-◌, ◌*◌, ◌/◌, ◌%◌, ◌≤◌, ◌<◌, ◌≡◌, refl, ap, sym, ◌∙◌, Bool, true, false, [],
  ◌∷◌, ◌++◌, ◌⊎◌, inl, inr, arith, ◌==◌, if◌then◌else◌, length, set-append, append_assoc, All, map,
  length-append, filter,
}
use mathlib.Core.List.{map-append}
use webtransport_gos.Js.Bytes.{Bytes, zeros}
use webtransport_gos.Util.{Text}
use webtransport_gos.Util.Base64.{
  base64, index_of, chr1, chr2, chr3, decode_loop, put, put_unless, bytes_loop, is_base64, pad_loop,
  clean, base642_uint8_array,
}
use webtransport_gos.Util.Base64.Groups.{IsByte, base64_of, char_of, decode_loop-base64_of}

-- The bytes written so far and `n` zeros, and where the next byte goes.
abbrev filled : Bytes → ℕ → Bytes × ℕ
filled done n = (done ++ zeros n, length done)

abbrev low_byte : ℕ → ℕ
low_byte x = x % 256

put-filled :
    (x : ℕ) (done : Bytes) (n : ℕ)
    → 0 < n
    → put x (filled done n) ≡ filled (done ++ low_byte x ∷ []) (n - 1)
unfolding put
put-filled x done zero h = absurd (omega arith)
put-filled x done (suc n) h =
    let e : suc n - 1 ≡ n = omega arith in
    rw
      (
        set-append done (zeros n) 0 (low_byte x),
        length-append done (low_byte x ∷ []),
        e,
        append_assoc done (low_byte x ∷ []) (zeros n),
      )
      refl

-- What a group of four characters gives, by whether the third and the fourth are `=`.
abbrev group : Bool → Bool → ℕ → ℕ → ℕ → Bytes
group third fourth x y z = x ∷ ((if third then [] else y ∷ []) ++ (if fourth then [] else z ∷ []))

put-group :
    (third fourth : Bool) (x y z : ℕ) (done : Bytes) (n : ℕ)
    → length (group third fourth x y z) ≤ n
    → put_unless fourth z (put_unless third y (put x (filled done n)))
      ≡ filled
          (done ++ map low_byte (group third fourth x y z))
          (n - length (group third fourth x y z))
put-group true true x y z done n h = put-filled x done n (omega arith)
put-group true false x y z done n h =
    rw
      (
        put-filled x done n (omega arith),
        put-filled z (done ++ low_byte x ∷ []) (n - 1) (omega arith),
        append_assoc done (low_byte x ∷ []) (low_byte z ∷ []),
      )
      (ap (filled _) {x = n - 1 - 1} {y = n - 2} (omega arith))
put-group false true x y z done n h =
    rw
      (
        put-filled x done n (omega arith),
        put-filled y (done ++ low_byte x ∷ []) (n - 1) (omega arith),
        append_assoc done (low_byte x ∷ []) (low_byte y ∷ []),
      )
      (ap (filled _) {x = n - 1 - 1} {y = n - 2} (omega arith))
put-group false false x y z done n h =
    rw
      (
        put-filled x done n (omega arith),
        put-filled y (done ++ low_byte x ∷ []) (n - 1) (omega arith),
        append_assoc done (low_byte x ∷ []) (low_byte y ∷ []),
        put-filled z (done ++ low_byte x ∷ low_byte y ∷ []) (n - 1 - 1) (omega arith),
        append_assoc done (low_byte x ∷ low_byte y ∷ []) (low_byte z ∷ []),
      )
      (ap (filled _) {x = n - 1 - 1 - 1} {y = n - 3} (omega arith))

group-append :
    (third fourth : Bool) (x y z : ℕ) (rest : Bytes)
    → x ∷ ((if third then [] else y ∷ []) ++ ((if fourth then [] else z ∷ []) ++ rest))
      ≡ group third fourth x y z ++ rest
group-append true true x y z rest = refl
group-append true false x y z rest = refl
group-append false true x y z rest = refl
group-append false false x y z rest = refl

-- What a group of text gives, and that it goes in front of the others.
group_of : ℕ → ℕ → ℕ → ℕ → Bytes
group_of a b c d =
    let enc2 = index_of base64 b in
    let enc3 = index_of base64 c in
    let enc4 = index_of base64 d in
    group (enc3 == 64) (enc4 == 64) (chr1 (index_of base64 a) enc2) (chr2 enc2 enc3)
      (chr3 enc3 enc4)

decode_loop-group :
    (a b c d : ℕ) (text : Text)
    → decode_loop (a ∷ b ∷ c ∷ d ∷ text) ≡ group_of a b c d ++ decode_loop text
unfolding decode_loop group_of
decode_loop-group a b c d text = group-append _ _ _ _ _ (decode_loop text)

bytes_loop-group :
    (a b c d : ℕ) (text : Text) (done : Bytes) (n : ℕ)
    → length (group_of a b c d) ≤ n
    → bytes_loop (filled done n) (a ∷ b ∷ c ∷ d ∷ text)
      ≡ bytes_loop
          (filled (done ++ map low_byte (group_of a b c d)) (n - length (group_of a b c d)))
          text
unfolding bytes_loop group_of
bytes_loop-group a b c d text done n h =
    ap (λ at. bytes_loop at text) (put-group _ _ _ _ _ done n h)

-- The loop writes what `base64Decode` would append, and leaves zeros behind it.
bytes_loop_lem :
    (text : Text) (done : Bytes) (n : ℕ)
    → length (decode_loop text) ≤ n
    → bytes_loop (filled done n) text
      ≡ done ++ (map low_byte (decode_loop text) ++ zeros (n - length (decode_loop text)))
bytes_loop_lem [] done n h =
    unfold bytes_loop decode_loop in ap (λ k. done ++ zeros k) (omega arith)
bytes_loop_lem (a ∷ []) done n h =
    unfold bytes_loop decode_loop in ap (λ k. done ++ zeros k) (omega arith)
bytes_loop_lem (a ∷ b ∷ []) done n h =
    unfold bytes_loop decode_loop in ap (λ k. done ++ zeros k) (omega arith)
bytes_loop_lem (a ∷ b ∷ c ∷ []) done n h =
    unfold bytes_loop decode_loop in ap (λ k. done ++ zeros k) (omega arith)
bytes_loop_lem (a ∷ b ∷ c ∷ d ∷ text) done n h =
    let g = group_of a b c d in
    let r = decode_loop text in
    let both = decode_loop-group a b c d text in
    let size = length-append g r in
    let room : length g + length r ≤ n = omega (arith, size, ap length both) in
    let left : n - length g - length r ≡ n - length (g ++ r) = omega (arith, size) in
    let ih = bytes_loop_lem text (done ++ map low_byte g) (n - length g) (omega (arith, room)) in
    rw (bytes_loop-group a b c d text done n (omega (arith, room)), ih, both, map-append, left)
      (append_assoc done (map low_byte g) (map low_byte r ++ zeros (n - length (g ++ r)))
        ∙ ap (λ t. done ++ t) (sym (append_assoc (map low_byte g) (map low_byte r) _)))

low_bytes : (bytes : Bytes) → All IsByte bytes → map low_byte bytes ≡ bytes
low_bytes [] h = refl
low_bytes (b ∷ bytes) (hb, h) = cc (low_bytes bytes h, small b hb)
  where
    small : (b : ℕ) → b < 256 → low_byte b ≡ b
    small b h = omega arith

-- The text of bytes without the `=` at its end.
unfoldable pub unpadded : Bytes → Text
unpadded [] = []
unpadded (a ∷ []) = char_of (a / 4) ∷ char_of (a % 4 * 16) ∷ []
unpadded (a ∷ b ∷ []) = char_of (a / 4) ∷ char_of (a % 4 * 16 + b / 16) ∷ char_of (b % 16 * 4) ∷ []
unpadded (a ∷ b ∷ c ∷ bytes) =
    char_of (a / 4)
    ∷ char_of (a % 4 * 16 + b / 16)
    ∷ char_of (b % 16 * 4 + c / 64)
    ∷ char_of (c % 64)
    ∷ unpadded bytes

-- How many bytes the last group lacks.
abbrev pub missing : Bytes → ℕ
missing bytes = (3 - length bytes % 3) % 3

length-base64_of :
    (bytes : Bytes) → length (base64_of bytes) ≡ (length bytes + missing bytes) / 3 * 4
unfolding base64_of
length-base64_of [] = omega arith
length-base64_of (a ∷ []) = omega arith
length-base64_of (a ∷ b ∷ []) = omega arith
length-base64_of (a ∷ b ∷ c ∷ bytes) = omega (arith, length-base64_of bytes)

pad_loop_whole : (fuel : ℕ) (text : Text) → length text % 4 ≡ 0 → pad_loop fuel text ≡ text
unfolding pad_loop
pad_loop_whole zero text h = refl
pad_loop_whole (suc fuel) text h = rw h refl

pad_loop-group :
    (fuel a b c d : ℕ) (text : Text)
    → pad_loop fuel (a ∷ b ∷ c ∷ d ∷ text) ≡ a ∷ b ∷ c ∷ d ∷ pad_loop fuel text
unfolding pad_loop
pad_loop-group zero a b c d text = refl
pad_loop-group (suc fuel) a b c d text =
    let e : suc (suc (suc (suc (length text)))) % 4 ≡ length text % 4 = omega arith in
    rw e (ground (arith, pad_loop-group fuel a b c d (text ++ 61 ∷ [])))

pad_loop-unpadded : (bytes : Bytes) → pad_loop 3 (unpadded bytes) ≡ base64_of bytes
unfolding unpadded base64_of
pad_loop-unpadded [] = unfold pad_loop in refl
pad_loop-unpadded (a ∷ []) = unfold pad_loop in refl
pad_loop-unpadded (a ∷ b ∷ []) = unfold pad_loop in refl
pad_loop-unpadded (a ∷ b ∷ c ∷ bytes) = rw (pad_loop-group, pad_loop-unpadded bytes) refl

pub clean_lem :
    (text : Text) (bytes : Bytes)
    → (filter is_base64 text ≡ base64_of bytes) ⊎ (filter is_base64 text ≡ unpadded bytes)
    → clean text ≡ base64_of bytes
unfolding clean
clean_lem text bytes (inl whole) =
    rw whole (pad_loop_whole 3 (base64_of bytes) (omega (arith, length-base64_of bytes)))
clean_lem text bytes (inr short) = rw short (pad_loop-unpadded bytes)

-- `base642Uint8Array` of the base64 text of bytes, with or without the `=` at its end, and with any
-- characters between that are not of base64: the bytes, and behind them a zero for each byte that the
-- last group lacks.
pub base642_uint8_array_lem :
    (text : Text) (bytes : Bytes)
    → All IsByte bytes
    → (filter is_base64 text ≡ base64_of bytes) ⊎ (filter is_base64 text ≡ unpadded bytes)
    → base642_uint8_array text ≡ bytes ++ zeros (missing bytes)
unfolding base642_uint8_array
base642_uint8_array_lem text bytes h spelt =
    let decoded = decode_loop-base64_of bytes h in
    let size : length (base64_of bytes) * 3 / 4 ≡ length bytes + missing bytes =
      omega (arith, length-base64_of bytes) in
    let run =
      bytes_loop_lem (base64_of bytes) [] (length bytes + missing bytes)
        (rw decoded (omega arith)) in
    let rest : length bytes + missing bytes - length bytes ≡ missing bytes = omega arith in
    rw (clean_lem text bytes spelt, size, run, decoded, low_bytes bytes h, rest) refl

-- ===== src/Util/Base64/Utf8.antt =====
-- `base64Decode` of util/base64.js gives back text that was written as UTF-8 and base64.
use webtransport_gos.Prelude.{
  ℕ, zero, suc, ◌+◌, ◌-◌, ◌*◌, ◌/◌, ◌%◌, ◌^◌, ◌≤◌, ◌<◌, ◌≡◌, ◌≢◌, ◌∙◌, refl, ap, [], ◌∷◌, ◌++◌, ◌⊎◌,
  arith, ltb, if◌then◌else◌, length, All, length-append, filter,
}
use native.Mathlib.Decide.{dec_lt}
use webtransport_gos.Js.Bytes.{Bytes}
use webtransport_gos.Util.{Text}
use webtransport_gos.Util.Bits.{bit_or-shifted, bit_and_15, bit_and_31, bit_and_63}
use webtransport_gos.Util.Base64.{
  two_bytes, three_bytes, utf8_loop, utf8_decode, base64_decode, is_base64,
}
use webtransport_gos.Util.Base64.Groups.{IsByte, base64_of, decode_loop-base64_of}
use webtransport_gos.Util.Base64.RoundTrip.{unpadded, clean_lem}

-- A code unit in UTF-8.
unfoldable pub utf8_unit : ℕ → Bytes
utf8_unit u =
    if ltb u 128
    then u ∷ []
    else if ltb u 2048
    then (192 + u / 64) ∷ (128 + u % 64) ∷ []
    else (224 + u / 4096) ∷ (128 + u / 64 % 64) ∷ (128 + u % 64) ∷ []

unfoldable pub utf8_of : Text → Bytes
utf8_of [] = []
utf8_of (u ∷ us) = utf8_unit u ++ utf8_of us

-- A code unit that stands for a character of its own, and is not half of one.
abbrev pub IsUnit : ℕ → Type 0
IsUnit u = (u < 65536) × ((u < 55296) ⊎ (57344 ≤ u))

two_bytes_lem : (x y : ℕ) → x < 32 → y < 64 → two_bytes (192 + x) (128 + y) ≡ x * 64 + y
unfolding two_bytes
two_bytes_lem x y h k =
    let e1 : (192 + x) % 32 ≡ x = omega arith in
    let e2 : (128 + y) % 64 ≡ y = omega arith in
    rw (bit_and_31, bit_and_63, e1, e2) (bit_or-shifted 6 x y k)

three_bytes_lem : (c c2 c3 : ℕ) → three_bytes c c2 c3 ≡ c % 16 * 4096 + c2 % 64 * 64 + c3 % 64
unfolding three_bytes
three_bytes_lem c c2 c3 =
    let inner = bit_or-shifted 12 (c % 16) (c2 % 64 * 2 ^ 6) (omega arith) in
    let outer = bit_or-shifted 6 (c % 16 * 64 + c2 % 64) (c3 % 64) (omega arith) in
    let split : c % 16 * 2 ^ 12 + c2 % 64 * 2 ^ 6 ≡ (c % 16 * 64 + c2 % 64) * 2 ^ 6 = omega arith in
    rw (bit_and_15 c, bit_and_63 c2, bit_and_63 c3, inner, split, outer) (omega arith)

-- One round of the loop takes a unit off.
utf8_loop-unit :
    (fuel u : ℕ) (rest : Bytes)
    → u < 65536
    → utf8_loop (suc fuel) (utf8_unit u ++ rest) ≡ u ∷ utf8_loop fuel rest
utf8_loop-unit fuel u rest h = elim (dec_lt u 128) [
  | yes small ↦ unfold utf8_loop utf8_unit in ground arith
  | no p ↦ elim (dec_lt u 2048) [
    | yes middle ↦
        let e = two_bytes_lem (u / 64) (u % 64) (omega arith) (omega arith) in
        unfold utf8_loop utf8_unit in ground (arith, e)
    | no q ↦
        let e = three_bytes_lem (224 + u / 4096) (128 + u / 64 % 64) (128 + u % 64) in
        unfold utf8_loop utf8_unit in ground (arith, e)
  ]
]

length-utf8_unit : (u : ℕ) → 0 < length (utf8_unit u)
unfolding utf8_unit
length-utf8_unit u = ground arith

utf8_loop-utf8_of :
    (fuel : ℕ) (us : Text)
    → All IsUnit us
    → length (utf8_of us) ≤ fuel
    → utf8_loop fuel (utf8_of us) ≡ us
unfolding utf8_of
utf8_loop-utf8_of zero [] h k = unfold utf8_loop in refl
utf8_loop-utf8_of (suc fuel) [] h k = unfold utf8_loop in refl
utf8_loop-utf8_of zero (u ∷ us) h k =
    absurd (omega (arith, length-utf8_unit u, length-append (utf8_unit u) (utf8_of us)))
utf8_loop-utf8_of (suc fuel) (u ∷ us) h k =
    let size = length-append (utf8_unit u) (utf8_of us) in
    let ih = utf8_loop-utf8_of fuel us h.1 (omega (arith, size, length-utf8_unit u)) in
    utf8_loop-unit fuel u (utf8_of us) h.0.0 ∙ ap (λ vs. u ∷ vs) ih

utf8_unit-IsByte :
    (u : ℕ) (rest : Bytes) → u < 65536 → All IsByte rest → All IsByte (utf8_unit u ++ rest)
unfolding utf8_unit
utf8_unit-IsByte u rest h k = elim (dec_lt u 128) [
  | yes small ↦ ground (arith, k)
  | no p ↦ elim (dec_lt u 2048) [ yes middle ↦ ground (arith, k) | no q ↦ ground (arith, k) ]
]

utf8_of-IsByte : (us : Text) → All IsUnit us → All IsByte (utf8_of us)
unfolding utf8_of
utf8_of-IsByte [] h = tt
utf8_of-IsByte (u ∷ us) (hu, h) = utf8_unit-IsByte u (utf8_of us) hu.0 (utf8_of-IsByte us h)

-- `base64Decode` of text written as UTF-8 and then as base64, with or without the `=` at its end, is the
-- text, if it is made of characters below U+10000.
pub base64_decode_lem :
    (text us : Text)
    → All IsUnit us
    → (filter is_base64 text ≡ base64_of (utf8_of us))
      ⊎ (filter is_base64 text ≡ unpadded (utf8_of us))
    → base64_decode text ≡ us
unfolding base64_decode utf8_decode
base64_decode_lem text us h spelt =
    let bytes = decode_loop-base64_of (utf8_of us) (utf8_of-IsByte us h) in
    rw (clean_lem text (utf8_of us) spelt, bytes)
      (utf8_loop-utf8_of (length (utf8_of us)) us h (omega arith))

-- A character from U+10000 on, in UTF-8 and in two code units.
abbrev pub utf8_high : ℕ → Bytes
utf8_high c = (240 + c / 262144) ∷ (128 + c / 4096 % 64) ∷ (128 + c / 64 % 64) ∷ (128 + c % 64) ∷ []

abbrev pub units_high : ℕ → Text
units_high c = (55296 + (c - 65536) / 1024) ∷ (56320 + (c - 65536) % 1024) ∷ []

-- Characters from U+10000 on are not read back: `utf8Decode` takes their four bytes for three.
pub utf8_decode_high : (c : ℕ) → 65536 ≤ c → c < 1114112 → utf8_decode (utf8_high c) ≢ units_high c
unfolding utf8_decode utf8_loop
utf8_decode_high c h k e =
    let first = three_bytes_lem (240 + c / 262144) (128 + c / 4096 % 64) (128 + c / 64 % 64) in
    let low : three_bytes (240 + c / 262144) (128 + c / 4096 % 64) (128 + c / 64 % 64) < 55296 =
      omega (arith, first) in
    ground (arith, low, e)

-- ===== src/Util/Base64.antt =====
-- example/bjy-common/lib/util/base64.js: base64 read into bytes and into text.
pub mod Groups
pub mod RoundTrip
pub mod Utf8
pub mod Fuel
use Prim.Native.Char.{code}
use Prim.Native.Nat.{bit_and, bit_or}
use Prim.Native.String.{String}
use webtransport_gos.Prelude.{
  ℕ, zero, suc, ◌+◌, ◌*◌, ◌/◌, ◌%◌, ◌^◌, Bool, ◌&&◌, ◌||◌, List, [], ◌∷◌, ◌++◌, ltb, leb, ◌==◌,
  if◌then◌else◌, length, set, get_or, drop, filter,
}
use webtransport_gos.Js.Bytes.{Bytes, zeros, byte_at}
use webtransport_gos.Util.{Text}
use webtransport_gos.Util.Literal.{codes}

abbrev pub base64 : Text
base64 = codes "ABCDEFGHIJKLMNOPQRSTUVWXYZabcdefghijklmnopqrstuvwxyz0123456789+/="

-- `base64.indexOf(char)`, for a character that stands in `base64`.
unfoldable pub index_of : Text → ℕ → ℕ
index_of [] c = 0
index_of (x ∷ xs) c = if x == c then 0 else suc (index_of xs c)

-- `[A-Za-z0-9\+\/\=]`: what `text.replace` leaves.
abbrev pub is_base64 : ℕ → Bool
is_base64 c =
    (leb 65 c && leb c 90)
    || ((leb 97 c && leb c 122)
        || ((leb 48 c && leb c 57) || ((c == 43) || ((c == 47) || (c == 61)))))

-- `while (text.length % 4) text += '='`, on fuel; three rounds are enough.
unfoldable pub pad_loop : ℕ → Text → Text
pad_loop zero text = text
pad_loop (suc fuel) text =
    let rest = pad_loop fuel (text ++ 61 ∷ []) in if length text % 4 == 0 then text else rest

unfoldable pub clean : Text → Text
unfolding pad_loop
clean text = pad_loop 3 (filter is_base64 text)

-- `chr1`, `chr2` and `chr3`, of the values that they depend on.
unfoldable pub chr1 : ℕ → ℕ → ℕ
chr1 enc1 enc2 = bit_or (enc1 * 2 ^ 2) (enc2 / 2 ^ 4)

unfoldable pub chr2 : ℕ → ℕ → ℕ
chr2 enc2 enc3 = bit_or (bit_and enc2 15 * 2 ^ 4) (enc3 / 2 ^ 2)

unfoldable pub chr3 : ℕ → ℕ → ℕ
chr3 enc3 enc4 = bit_or (bit_and enc3 3 * 2 ^ 6) enc4

-- The loop of `base64Decode`: what it appends to `output`. The text is a multiple of four long.
unfoldable pub decode_loop : Text → Text
decode_loop (a ∷ b ∷ c ∷ d ∷ text) =
    let enc1 = index_of base64 a in
    let enc2 = index_of base64 b in
    let enc3 = index_of base64 c in
    let enc4 = index_of base64 d in
    let rest = decode_loop text in
    chr1 enc1 enc2
    ∷ ((if enc3 == 64 then [] else chr2 enc2 enc3 ∷ [])
        ++ ((if enc4 == 64 then [] else chr3 enc3 enc4 ∷ []) ++ rest))
decode_loop _ = []

-- `buffer[p++] = chr`: a byte is taken modulo 256, and a write out of range changes nothing.
unfoldable pub put : ℕ → Bytes × ℕ → Bytes × ℕ
put chr (buffer, p) = (set buffer p (chr % 256), p + 1)

abbrev pub put_unless : Bool → ℕ → Bytes × ℕ → Bytes × ℕ
put_unless skipped chr at = if skipped then at else put chr at

-- The loop of `base642Uint8Array`, with the buffer and `p`.
unfoldable pub bytes_loop : Bytes × ℕ → Text → Bytes
bytes_loop at (a ∷ b ∷ c ∷ d ∷ text) =
    let enc1 = index_of base64 a in
    let enc2 = index_of base64 b in
    let enc3 = index_of base64 c in
    let enc4 = index_of base64 d in
    bytes_loop
      (put_unless (enc4 == 64) (chr3 enc3 enc4)
        (put_unless (enc3 == 64) (chr2 enc2 enc3) (put (chr1 enc1 enc2) at)))
      text
bytes_loop at _ = at.0

unfoldable pub base642_uint8_array : Text → Bytes
unfolding clean bytes_loop
base642_uint8_array text =
    let cleaned = clean text in bytes_loop (zeros (length cleaned * 3 / 4), 0) cleaned

-- `((c & 31) << 6) | (c2 & 63)`, and the like of three bytes.
unfoldable pub two_bytes : ℕ → ℕ → ℕ
two_bytes c c2 = bit_or (bit_and c 31 * 2 ^ 6) (bit_and c2 63)

unfoldable pub three_bytes : ℕ → ℕ → ℕ → ℕ
three_bytes c c2 c3 =
    bit_or (bit_or (bit_and c 15 * 2 ^ 12) (bit_and c2 63 * 2 ^ 6)) (bit_and c3 63)

-- The loop of `utf8Decode`, on fuel: a round takes one code at least. Past the end `charCodeAt` gives
-- NaN, which `&` takes for 0.
unfoldable pub utf8_loop : ℕ → Text → Text
utf8_loop zero text = []
utf8_loop (suc fuel) [] = []
utf8_loop (suc fuel) (c ∷ text) =
    let c2 = byte_at text 0 in
    let c3 = byte_at text 1 in
    let two = ltb 191 c && ltb c 224 in
    let rest = utf8_loop fuel (drop (if ltb c 128 then 0 else if two then 1 else 2) text) in
    (if ltb c 128 then c else if two then two_bytes c c2 else three_bytes c c2 c3) ∷ rest

unfoldable pub utf8_decode : Text → Text
unfolding utf8_loop
utf8_decode text = utf8_loop (length text) text

unfoldable pub base64_decode : Text → Text
unfolding clean decode_loop utf8_decode
base64_decode text = utf8_decode (decode_loop (clean text))

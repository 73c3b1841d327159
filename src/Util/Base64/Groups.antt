-- ===== src/Util/Base64/Groups.antt =====
-- What util/base64.js makes of text that follows RFC 4648, group by group.
use webtransport_gos.Prelude.{
  ℕ, zero, suc, ◌+◌, ◌*◌, ◌/◌, ◌%◌, ◌^◌, ◌<◌, ◌≡◌, refl, ap, ◌∙◌, Bool, true, ◌&&◌, [], ◌∷◌, arith,
  ◌==◌, get_or, All,
}
use webtransport_gos.Js.Bytes.{Bytes}
use webtransport_gos.Util.{Text}
use webtransport_gos.Util.Bits.{bit_or-shifted, bit_and_15, bit_and_3}
use webtransport_gos.Util.Base64.{base64, index_of, chr1, chr2, chr3, decode_loop, is_base64}

-- The character of six bits.
unfoldable pub char_of : ℕ → ℕ
char_of i = get_or base64 i 61

-- The base64 text of bytes, with the `=` that fills the last group.
unfoldable pub base64_of : Bytes → Text
base64_of [] = []
base64_of (a ∷ []) = char_of (a / 4) ∷ char_of (a % 4 * 16) ∷ 61 ∷ 61 ∷ []
base64_of (a ∷ b ∷ []) =
    char_of (a / 4) ∷ char_of (a % 4 * 16 + b / 16) ∷ char_of (b % 16 * 4) ∷ 61 ∷ []
base64_of (a ∷ b ∷ c ∷ bytes) =
    char_of (a / 4)
    ∷ char_of (a % 4 * 16 + b / 16)
    ∷ char_of (b % 16 * 4 + c / 64)
    ∷ char_of (c % 64)
    ∷ base64_of bytes

abbrev pub IsByte : ℕ → Type 0
IsByte b = b < 256

-- The source reads the character of six bits as these bits, and keeps it.
is_code : ℕ → Bool
is_code i = (index_of base64 (char_of i) == i) && is_base64 (char_of i)

codes_from : ℕ → ℕ → Bool
codes_from first zero = true
codes_from first (suc count) = let others = codes_from (first + 1) count in is_code first && others

code_among :
    (first count k : ℕ) → codes_from first count ≡ true → k < count → is_code (first + k) ≡ true
unfolding codes_from
code_among first zero k every inside = absurd (omega (arith, inside))
code_among first (suc count) zero every inside =
    let here : is_code first ≡ true = ground (arith, every) in
    ap is_code {x = first + 0} {y = first} (omega arith) ∙ here
code_among first (suc count) (suc k) every inside =
    let others = code_among (first + 1) count k (ground (arith, every)) (omega (arith, inside)) in
    ap is_code {x = first + suc k} {y = first + 1 + k} (omega arith) ∙ others

code_table : codes_from 0 64 ≡ true
unfolding codes_from is_code index_of char_of
code_table = refl

six_bits : (i : ℕ) → i < 64 → is_code i ≡ true
six_bits i h = ap is_code {x = i} {y = 0 + i} (omega arith) ∙ code_among 0 64 i code_table h

pub index_of_pad : index_of base64 61 ≡ 64
unfolding index_of
index_of_pad = refl

pub index_of-char_of : (i : ℕ) → i < 64 → index_of base64 (char_of i) ≡ i
unfolding is_code
index_of-char_of i h = ground (arith, six_bits i h)

pub is_base64-char_of : (i : ℕ) → i < 64 → is_base64 (char_of i) ≡ true
unfolding is_code
is_base64-char_of i h = ground (arith, six_bits i h)

pub chr1_lem : (a r : ℕ) → r < 64 → chr1 a r ≡ a * 4 + r / 16
unfolding chr1
chr1_lem a r h = bit_or-shifted 2 a (r / 2 ^ 4) (omega arith)

pub chr2_lem : (b c : ℕ) → c < 64 → chr2 b c ≡ b % 16 * 16 + c / 4
unfolding chr2
chr2_lem b c h = rw bit_and_15 (bit_or-shifted 4 (b % 16) (c / 2 ^ 2) (omega arith))

pub chr3_lem : (c d : ℕ) → d < 64 → chr3 c d ≡ c % 4 * 64 + d
unfolding chr3
chr3_lem c d h = rw bit_and_3 (bit_or-shifted 6 (c % 4) d h)

-- The loop of `base64Decode` gives the bytes back.
pub decode_loop-base64_of :
    (bytes : Bytes) → All IsByte bytes → decode_loop (base64_of bytes) ≡ bytes
unfolding decode_loop base64_of
decode_loop-base64_of [] h = refl
decode_loop-base64_of (a ∷ []) (ha, h) =
    let i1 = index_of-char_of (a / 4) (omega arith) in
    let i2 = index_of-char_of (a % 4 * 16) (omega arith) in
    let first = chr1_lem (a / 4) (a % 4 * 16) (omega arith) in
    rw (i1, i2, index_of_pad, first) (ap (λ x. x ∷ []) (omega arith))
decode_loop-base64_of (a ∷ b ∷ []) (ha, (hb, h)) =
    let i1 = index_of-char_of (a / 4) (omega arith) in
    let i2 = index_of-char_of (a % 4 * 16 + b / 16) (omega arith) in
    let i3 = index_of-char_of (b % 16 * 4) (omega arith) in
    let first = chr1_lem (a / 4) (a % 4 * 16 + b / 16) (omega arith) in
    let second = chr2_lem (a % 4 * 16 + b / 16) (b % 16 * 4) (omega arith) in
    rw (i1, i2, i3, index_of_pad, first, second) (ground arith)
decode_loop-base64_of (a ∷ b ∷ c ∷ bytes) (ha, (hb, (hc, h))) =
    let i1 = index_of-char_of (a / 4) (omega arith) in
    let i2 = index_of-char_of (a % 4 * 16 + b / 16) (omega arith) in
    let i3 = index_of-char_of (b % 16 * 4 + c / 64) (omega arith) in
    let i4 = index_of-char_of (c % 64) (omega arith) in
    let first = chr1_lem (a / 4) (a % 4 * 16 + b / 16) (omega arith) in
    let second = chr2_lem (a % 4 * 16 + b / 16) (b % 16 * 4 + c / 64) (omega arith) in
    let third = chr3_lem (b % 16 * 4 + c / 64) (c % 64) (omega arith) in
    let rest = decode_loop-base64_of bytes h in
    rw (i1, i2, i3, i4, first, second, third, rest) (ground arith)

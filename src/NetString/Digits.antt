-- ===== src/NetString/Digits.antt =====
-- Runs of digits at the front of a byte string, for both loops of `decode` in helper/NetString.js.
use webtransport_gos.Prelude.{
  ℕ, ◌+◌, ◌-◌, ◌*◌, ◌<◌, ◌≡◌, refl, true, false, some, [], ◌∷◌, arith, zero, suc, if◌then◌else◌,
  length, drop,
}
use webtransport_gos.Js.Bytes.{Bytes, byte_at}
use webtransport_gos.NetString.{is_digit}

-- The longest run of digits that a text starts with.
unfoldable pub digits : Bytes → Bytes
digits [] = []
digits (x ∷ xs) = if is_digit (some x) then x ∷ digits xs else []

-- The number that digits spell behind `n`.
unfoldable pub value : ℕ → Bytes → ℕ
value n [] = n
value n (x ∷ xs) = value (n * 10 + (x - 0x30)) xs

abbrev pub after_digits : Bytes → Bytes
after_digits q = drop (length (digits q)) q

pub byte_at-digits :
    (q : Bytes) (j : ℕ) → j < length (digits q) → is_digit (some (byte_at q j)) ≡ true
unfolding digits
byte_at-digits [] j h = absurd (omega arith)
byte_at-digits (x ∷ q) zero h = ground arith
byte_at-digits (x ∷ q) (suc j) h = ground (arith, byte_at-digits q j)

pub digits_cons : (x : ℕ) (q : Bytes) → is_digit (some x) ≡ true → digits (x ∷ q) ≡ x ∷ digits q
unfolding digits
digits_cons x q d = rw d

pub digits_stop : (x : ℕ) (q : Bytes) → is_digit (some x) ≡ false → digits (x ∷ q) ≡ []
unfolding digits
digits_stop x q d = rw d

pub value-cons : (n x : ℕ) (q : Bytes) → value n (x ∷ q) ≡ value (n * 10 + (x - 0x30)) q
unfolding value
value-cons n x q = refl

pub value-nil : (n : ℕ) → value n [] ≡ n
unfolding value
value-nil n = refl

pub digits-nil : digits [] ≡ []
unfolding digits
digits-nil = refl

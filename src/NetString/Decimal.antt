-- ===== src/NetString/Decimal.antt =====
-- `String(n)` of a natural number, as the template literals of helper/NetString.js use it, and that
-- the digit loops of `decode` read it back.
use Prim.Native.Nat.{◌/◌}
use native.Mathlib.Nat.{pow-suc}
use webtransport_gos.Prelude.{
  ℕ, zero, suc, ◌+◌, ◌%◌, ◌^◌, ◌≤◌, ◌<◌, ◌≡◌, refl, true, false, some, [], ◌∷◌, ◌++◌, arith, ltb,
  if◌then◌else◌, length, Bool-cases, inl, inr, ◌⊎◌,
}
use webtransport_gos.Js.Bytes.{Bytes}
use webtransport_gos.NetString.{is_digit}
use webtransport_gos.NetString.Digits.{digits, value}

-- The last digit of `n` goes in front of `out`, then those of `n / 10`. `suc n` rounds are enough.
unfoldable pub decimal_loop : ℕ → ℕ → Bytes → Bytes
decimal_loop zero n out = out
decimal_loop (suc fuel) n out =
    let rest = decimal_loop fuel (n / 10) ((0x30 + n % 10) ∷ out) in
    if ltb n 10 then (0x30 + n) ∷ out else rest

unfoldable pub decimal : ℕ → Bytes
unfolding decimal_loop
decimal n = decimal_loop (suc n) n []

abbrev pub AllDigits : Bytes → Type 0
AllDigits [] = Unit
AllDigits (x ∷ xs) = (is_digit (some x) ≡ true) × AllDigits xs

value-decimal_loop :
    (fuel n : ℕ) (out : Bytes) → n < fuel → value 0 (decimal_loop fuel n out) ≡ value n out
unfolding decimal_loop value
value-decimal_loop zero n out h = absurd (omega arith)
value-decimal_loop (suc fuel) n out h =
    ground (arith, value-decimal_loop fuel (n / 10) ((0x30 + n % 10) ∷ out))

AllDigits-decimal_loop :
    (fuel n : ℕ) (out : Bytes) → AllDigits out → AllDigits (decimal_loop fuel n out)
unfolding decimal_loop
AllDigits-decimal_loop zero n out h = h
AllDigits-decimal_loop (suc fuel) n out h =
    ground (arith, AllDigits-decimal_loop fuel (n / 10) ((0x30 + n % 10) ∷ out))

length-decimal_loop :
    (k fuel n : ℕ) (out : Bytes)
    → n < 10 ^ suc k
    → length (decimal_loop fuel n out) ≤ suc k + length out
unfolding decimal_loop
length-decimal_loop k zero n out h = omega arith
length-decimal_loop zero (suc fuel) n out h = ground arith
length-decimal_loop (suc k) (suc fuel) n out h =
    ground (arith, length-decimal_loop k fuel (n / 10) ((0x30 + n % 10) ∷ out), pow-suc 10 (suc k))

-- No leading zero: the first of the digits of a positive number is not 0.
head-decimal_loop :
    (fuel n : ℕ) (out : Bytes)
    → n < fuel
    → 0 < n
    → (d : ℕ) × (xs : Bytes) × (decimal_loop fuel n out ≡ d ∷ xs) × (0x30 < d)
unfolding decimal_loop
head-decimal_loop zero n out h p = absurd (omega arith)
head-decimal_loop (suc fuel) n out h p = elim (Bool-cases (ltb n 10)) [
  | inl small ↦ (0x30 + n, out, rw small, omega arith)
  | inr large ↦
      let (d, xs, e, l) =
        head-decimal_loop fuel (n / 10) ((0x30 + n % 10) ∷ out) (ground arith) (ground arith) in
      (d, xs, rw large e, l)
]

pub value-decimal : (n : ℕ) → value 0 (decimal n) ≡ n
unfolding decimal value
value-decimal n = value-decimal_loop (suc n) n [] (omega arith)

pub decimal-AllDigits : (n : ℕ) → AllDigits (decimal n)
unfolding decimal
decimal-AllDigits n = AllDigits-decimal_loop (suc n) n [] tt

pub length-decimal_le : (k n : ℕ) → n < 10 ^ suc k → length (decimal n) ≤ suc k
unfolding decimal
length-decimal_le k n h = omega (arith, length-decimal_loop k (suc n) n [] h)

-- The digits of a number are either `0` alone or start with another digit.
pub decimal-head :
    (n : ℕ) → (decimal n ≡ 0x30 ∷ []) ⊎ ((d : ℕ) × (xs : Bytes) × (decimal n ≡ d ∷ xs) × (0x30 < d))
unfolding decimal
decimal-head zero = inl refl
decimal-head (suc n) = inr (head-decimal_loop (suc (suc n)) (suc n) [] (omega arith) (omega arith))

-- The run of digits ends where something else stands.
pub digits-append :
    (ds : Bytes) (x : ℕ) (q : Bytes)
    → AllDigits ds
    → is_digit (some x) ≡ false
    → digits (ds ++ x ∷ q) ≡ ds
unfolding digits
digits-append [] x q _ h = rw h
digits-append (d ∷ ds) x q (hd, hds) h = rw (hd, digits-append ds x q hds h)

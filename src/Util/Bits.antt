-- ===== src/Util/Bits.antt =====
-- `|`, `&` with a mask of low bits and the shifts of the sources, as arithmetic.
use Prim.Native.Nat.{min, max, digits, bit_and, bit_or, bit_and-bitwise, bit_or-bitwise}
use native.Mathlib.Nat.{pow-suc}
use webtransport_gos.Prelude.{
  ℕ, zero, suc, ◌+◌, ◌-◌, ◌*◌, ◌/◌, ◌%◌, ◌^◌, ◌≤◌, ◌<◌, ◌≡◌, refl, ap, sym, ◌∙◌, arith,
}

-- What holds of 0, and of a number if it holds of its half, holds of all numbers.
module _ (P : ℕ → Type 0) (base : P 0) (step : (a : ℕ) → P (suc a / 2) → P (suc a)) where
  halving : (bound a : ℕ) → a ≤ bound → P a
  halving bound zero h = base
  halving zero (suc a) h = absurd (omega (arith, h))
  halving (suc bound) (suc a) h = step a (halving bound (suc a / 2) (omega (arith, h)))

  by_halves : (a : ℕ) → P a
  by_halves a = halving a a (omega arith)

-- The loop over the binary digits of `a` stops at its last one, however many rounds are left.
module _ (rest : ℕ → ℕ) (bit : ℕ → ℕ → ℕ) where
  no_digits : (rounds b : ℕ) → digits rest bit rounds 0 b ≡ rest b
  no_digits zero b = refl
  no_digits (suc rounds) b = refl

  spare_rounds :
      (used spare a b : ℕ)
      → a ≤ used
      → digits rest bit (used + spare) a b ≡ digits rest bit used a b
  spare_rounds used spare zero b h = no_digits (used + spare) b ∙ sym (no_digits used b)
  spare_rounds zero spare (suc a) b h = absurd (omega (arith, h))
  spare_rounds (suc used) spare (suc a) b h =
      let next : suc used + spare ≡ suc (used + spare) = omega arith in
      let half = spare_rounds used spare (suc a / 2) (b / 2) (omega (arith, h)) in
      rw (next, half) refl

  half_rounds :
      (a b : ℕ) → digits rest bit a (suc a / 2) b ≡ digits rest bit (suc a / 2) (suc a / 2) b
  half_rounds a b =
      let half = suc a / 2 in
      ap (λ rounds. digits rest bit rounds half b) {x = a} {y = half + (a - half)} (omega arith)
      ∙ spare_rounds half (a - half) half b (omega arith)

-- The lowest digit, and the others.
bit_or_digit : (a b : ℕ) → bit_or a b ≡ max (a % 2) (b % 2) + 2 * bit_or (a / 2) (b / 2)
bit_or_digit zero b = simp bit_or-bitwise (omega arith)
bit_or_digit (suc a) b =
    let others = half_rounds (λ y. y) max a (b / 2) in simp bit_or-bitwise (omega (arith, others))

bit_and_digit : (a b : ℕ) → bit_and a b ≡ min (a % 2) (b % 2) + 2 * bit_and (a / 2) (b / 2)
bit_and_digit zero b = simp bit_and-bitwise (omega arith)
bit_and_digit (suc a) b =
    let others = half_rounds (λ y. 0) min a (b / 2) in simp bit_and-bitwise (omega (arith, others))

bit_or-zero : (a : ℕ) → bit_or a 0 ≡ a
bit_or-zero =
    by_halves (λ a. bit_or a 0 ≡ a) refl λ a half. omega (arith, half, bit_or_digit (suc a) 0)

bit_and-zero : (a : ℕ) → bit_and a 0 ≡ 0
bit_and-zero =
    by_halves (λ a. bit_and a 0 ≡ 0) refl λ a half. omega (arith, half, bit_and_digit (suc a) 0)

-- A shifted number beside one that fits under it is their sum.
pub bit_or-shifted : (k q r : ℕ) → r < 2 ^ k → bit_or (q * 2 ^ k) r ≡ q * 2 ^ k + r
bit_or-shifted zero q r h = ground (arith, bit_or-zero q)
bit_or-shifted (suc k) q r h =
    let double = ap (λ (t : ℕ). q * t) (pow-suc 2 k) in
    ground (
      arith,
      double,
      pow-suc 2 k,
      bit_or_digit (q * 2 ^ suc k) r,
      bit_or-shifted k q (r / 2) (omega (arith, pow-suc 2 k)),
    )

-- A mask with one bit more, which is set.
longer_mask : (mask a : ℕ) → bit_and a (2 * mask + 1) ≡ a % 2 + 2 * bit_and (a / 2) mask
longer_mask mask a =
    let odd : (2 * mask + 1) % 2 ≡ 1 = omega arith in
    let half : (2 * mask + 1) / 2 ≡ mask = omega arith in
    rw (bit_and_digit a (2 * mask + 1), odd, half) (omega arith)

-- The masks of the sources.
pub bit_and_3 : (a : ℕ) → bit_and a 3 ≡ a % 4
bit_and_3 a =
    let none_left = bit_and-zero (a / 2 / 2) in
    omega (arith, longer_mask 1 a, longer_mask 0 (a / 2), none_left)

pub bit_and_15 : (a : ℕ) → bit_and a 15 ≡ a % 16
bit_and_15 a = omega (arith, longer_mask 7 a, longer_mask 3 (a / 2), bit_and_3 (a / 2 / 2))

pub bit_and_31 : (a : ℕ) → bit_and a 31 ≡ a % 32
bit_and_31 a = omega (arith, longer_mask 15 a, bit_and_15 (a / 2))

pub bit_and_63 : (a : ℕ) → bit_and a 63 ≡ a % 64
bit_and_63 a = omega (arith, longer_mask 31 a, bit_and_31 (a / 2))

-- ===== src/NetString/Loops.antt =====
-- The two digit loops of `decode` in helper/NetString.js read the run of digits that the buffer's
-- contents start with.
use webtransport_gos.Prelude.{
  ℕ, zero, suc, ◌+◌, ◌-◌, ◌*◌, ◌≤◌, ◌<◌, ◌≡◌, refl, ap, sym, ◌∙◌, true, false, some, [], ◌∷◌, arith,
  length, drop, get_elem?, Bool-cases, inl, inr, ◌==◌, ◌&&◌, not, Bool,
}
use mathlib.Core.Path.{subst}
use native.Mathlib.Nat.{add-zero}
use native.Mathlib.Decide.{dec_lt}
use webtransport_gos.Prelude.Int.{pos, ◌-ℤ◌, int_laws, ℤ}
use webtransport_gos.Js.Exn.{ok, err, more_than_9_digits}
use webtransport_gos.Js.Bytes.{Bytes}
use webtransport_gos.Ring.{Ring, read_byte, get_byte_by_index, get_length}
use webtransport_gos.Ring.Bounds.{IsValid}
use webtransport_gos.Ring.Contents.{contents, length-contents, get_byte_by_index-pos}
use webtransport_gos.Ring.Consume.{
  Consumed, Consumed-refl, Consumed-IsValid, Consumed-read_byte, contents-Consumed, read_byte-head,
}
use webtransport_gos.NetString.{is_digit, length_loop, command_loop}
use webtransport_gos.NetString.Digits.{
  digits, value, after_digits, digits_cons, digits_stop, value-cons, value-nil, digits-nil,
}

-- `k` bytes were read from `r₀`, and `r` holds `q`.
pub record Reading (r₀ r : Ring) (k : ℕ) (q : Bytes) : Type 0 where
  pub consumed : Consumed r₀ r k
  pub holds : contents r ≡ q

module _ (r₀ r : Ring) (k : ℕ) (q : Bytes) (v : IsValid r₀) (at : Reading r₀ r k q) where
  pub Reading-IsValid : IsValid r
  Reading-IsValid = Consumed-IsValid r₀ r k v at.consumed

  pub Reading-len : r.len ≡ length q
  Reading-len = sym (length-contents r) ∙ ap length at.holds

  pub Reading-get_length : get_length r ≡ length q
  unfolding get_length
  Reading-get_length = Reading-len

  pub Reading-byte : (i : ℕ) → get_byte_by_index r (pos i) ≡ get_elem? q i
  Reading-byte i = get_byte_by_index-pos r i Reading-IsValid ∙ ap (λ xs. get_elem? xs i) at.holds

  pub Reading-head : (read_byte r).0 ≡ get_elem? q 0
  Reading-head = read_byte-head r Reading-IsValid ∙ ap (λ xs. get_elem? xs 0) at.holds

pub Reading-next :
    (r₀ r : Ring) (k x : ℕ) (q : Bytes)
    → IsValid r₀
    → Reading r₀ r k (x ∷ q)
    → Reading r₀ (read_byte r).1 (k + 1) q
Reading-next r₀ r k x q v at = record {
  consumed = Consumed-read_byte r₀ r k v at.consumed (omega (arith, some_left));
  holds =
      contents-Consumed r (read_byte r).1 1 w
        (Consumed-read_byte r r 0 w (Consumed-refl r w) (omega (arith, some_left)))
      ∙ ap (drop 1) at.holds;
}
  where
    w : IsValid r
    w = Reading-IsValid r₀ r k (x ∷ q) v at

    some_left : r.len ≡ suc (length q)
    some_left = Reading-len r₀ r k (x ∷ q) v at

ℤ-sub-zero : (a : ℤ) → a -ℤ pos 0 ≡ a
ℤ-sub-zero a = omega int_laws

-- What the loops' test sees.
loop_test : Ring → Bool
loop_test r = not (get_length r == 0) && is_digit (get_byte_by_index r (pos 0))

module _ (r₀ r : Ring) (k : ℕ) (v : IsValid r₀) where
  loop_test-digit : (x : ℕ) (q : Bytes) → Reading r₀ r k (x ∷ q) → loop_test r ≡ is_digit (some x)
  unfolding loop_test get_length
  loop_test-digit x q at =
      ground (arith, Reading-len r₀ r k (x ∷ q) v at, Reading-byte r₀ r k (x ∷ q) v at 0)

  loop_test-nil : Reading r₀ r k [] → loop_test r ≡ false
  unfolding loop_test get_length
  loop_test-nil at = ground (arith, Reading-len r₀ r k [] v at)

  loop_test-stop : (q : Bytes) → Reading r₀ r k q → digits q ≡ [] → loop_test r ≡ false
  loop_test-stop [] at e = loop_test-nil at
  loop_test-stop (x ∷ q) at e = elim (Bool-cases (is_digit (some x))) [
    | inl d ↦ cc (e, digits_cons x q d)
    | inr d ↦ rw (loop_test-digit x q at) d
  ]

module _ (fuel : ℕ) (r : Ring) (n i : ℕ) where
  length_loop_stop : loop_test r ≡ false → length_loop fuel r n i ≡ ok (n, i, r)
  unfolding length_loop loop_test
  length_loop_stop e = elim fuel as (λ f. length_loop f r n i ≡ ok (n, i, r)) [
    | zero ↦ refl
    | suc f ↦ rw e
  ]

  length_loop_go :
      (x : ℕ)
      → loop_test r ≡ true
      → (read_byte r).0 ≡ some x
      → i ≤ 9
      → length_loop (suc fuel) r n i
        ≡ length_loop fuel (read_byte r).1 (n * 10 + (x - 0x30)) (i + 1)
  unfolding length_loop loop_test
  length_loop_go x e b h = rw (e, b) (ground arith)

  length_loop_over :
      loop_test r ≡ true → 9 < i → length_loop (suc fuel) r n i ≡ err more_than_9_digits
  unfolding length_loop loop_test
  length_loop_over e h = rw e (ground arith)

-- The loop over the length's digits ends behind their run, with their value and their number.
pub length_loop_lem :
    (fuel : ℕ) (q : Bytes) (r₀ r : Ring) (k n i : ℕ)
    → IsValid r₀
    → Reading r₀ r k q
    → length q ≤ fuel
    → i + length (digits q) ≤ 10
    → (r' : Ring) × (length_loop fuel r n i ≡ ok (value n (digits q), i + length (digits q), r'))
      × Reading r₀ r' (k + length (digits q)) (after_digits q)
length_loop_lem fuel [] r₀ r k n i v at h few =
    rw (digits-nil, value-nil, add-zero, add-zero)
      (r, length_loop_stop fuel r n i (loop_test-nil r₀ r k v at), at)
length_loop_lem zero (x ∷ q) r₀ r k n i v at h few = absurd (omega arith)
length_loop_lem (suc fuel) (x ∷ q) r₀ r k n i v at h few = elim (Bool-cases (is_digit (some x))) [
  | inl d ↦
      rw (digits_cons x q d, value-cons)
        (let few' = rw (digits_cons x q d) at few in
          let (r', run, at') =
            length_loop_lem fuel q r₀ (read_byte r).1 (k + 1) (n * 10 + (x - 0x30)) (i + 1) v
              (Reading-next r₀ r k x q v at) (omega arith) (omega arith) in
          (
            r',
            length_loop_go fuel r n i x (loop_test-digit r₀ r k v x q at ∙ d)
                  (Reading-head r₀ r k (x ∷ q) v at) (omega arith)
                ∙ run
                ∙ ground arith,
            subst (λ j. Reading r₀ r' j (after_digits q)) (omega arith) at',
          ))
  | inr d ↦
      rw (digits_stop x q d, value-nil, add-zero, add-zero)
        (r, length_loop_stop (suc fuel) r n i (loop_test-digit r₀ r k v x q at ∙ d), at)
]

-- An eleventh digit makes it throw.
pub length_loop_too_long :
    (fuel : ℕ) (q : Bytes) (r₀ r : Ring) (k n i : ℕ)
    → IsValid r₀
    → Reading r₀ r k q
    → length q ≤ fuel
    → i ≤ 10
    → 10 < i + length (digits q)
    → length_loop fuel r n i ≡ err more_than_9_digits
length_loop_too_long fuel [] r₀ r k n i v at h le many =
    absurd (omega (arith, rw digits-nil at many))
length_loop_too_long zero (x ∷ q) r₀ r k n i v at h le many = absurd (omega arith)
length_loop_too_long (suc fuel) (x ∷ q) r₀ r k n i v at h le many =
    elim (Bool-cases (is_digit (some x))) [
      | inl d ↦
          let many' = rw (digits_cons x q d) at many in
          let passed = loop_test-digit r₀ r k v x q at ∙ d in
          elim (dec_lt 9 i) [
            | yes over ↦ length_loop_over fuel r n i passed over
            | no under ↦
                length_loop_go fuel r n i x passed (Reading-head r₀ r k (x ∷ q) v at) (omega arith)
                ∙ length_loop_too_long fuel q r₀ (read_byte r).1 (k + 1) (n * 10 + (x - 0x30))
                    (i + 1) v (Reading-next r₀ r k x q v at) (omega arith) (omega arith)
                    (omega arith)
          ]
      | inr d ↦ absurd (omega (arith, rw (digits_stop x q d) at many))
    ]

module _ (fuel : ℕ) (r : Ring) (n : ℕ) (m : ℤ) where
  command_loop_stop : loop_test r ≡ false → command_loop fuel r n m ≡ (n, m, r)
  unfolding command_loop loop_test
  command_loop_stop e = elim fuel as (λ f. command_loop f r n m ≡ (n, m, r)) [
    | zero ↦ refl
    | suc f ↦ rw e
  ]

  command_loop_go :
      (x : ℕ)
      → loop_test r ≡ true
      → (read_byte r).0 ≡ some x
      → command_loop (suc fuel) r n m
        ≡ command_loop fuel (read_byte r).1 (n * 10 + (x - 0x30)) (m -ℤ pos 1)
  unfolding command_loop loop_test
  command_loop_go x e b = rw (e, b)

-- The loop over the command's digits lowers `payloadLen` by their number.
pub command_loop_lem :
    (fuel : ℕ) (q : Bytes) (r₀ r : Ring) (k n : ℕ) (m : ℤ)
    → IsValid r₀
    → Reading r₀ r k q
    → length q ≤ fuel
    → (r' : Ring) × (command_loop fuel r n m
        ≡ (value n (digits q), m -ℤ pos (length (digits q)), r'))
      × Reading r₀ r' (k + length (digits q)) (after_digits q)
command_loop_lem fuel [] r₀ r k n m v at h =
    rw (digits-nil, value-nil, add-zero, ℤ-sub-zero)
      (r, command_loop_stop fuel r n m (loop_test-nil r₀ r k v at), at)
command_loop_lem zero (x ∷ q) r₀ r k n m v at h = absurd (omega arith)
command_loop_lem (suc fuel) (x ∷ q) r₀ r k n m v at h = elim (Bool-cases (is_digit (some x))) [
  | inl d ↦
      rw (digits_cons x q d, value-cons)
        (let (r', run, at') =
            command_loop_lem fuel q r₀ (read_byte r).1 (k + 1) (n * 10 + (x - 0x30)) (m -ℤ pos 1) v
              (Reading-next r₀ r k x q v at) (omega arith) in
          (
            r',
            command_loop_go fuel r n m x (loop_test-digit r₀ r k v x q at ∙ d)
                  (Reading-head r₀ r k (x ∷ q) v at)
                ∙ run
                ∙ ap (λ z. (value (n * 10 + (x - 0x30)) (digits q), z, r')) (omega int_laws),
            subst (λ j. Reading r₀ r' j (after_digits q)) (omega arith) at',
          ))
  | inr d ↦
      rw (digits_stop x q d, value-nil, add-zero, ℤ-sub-zero)
        (r, command_loop_stop (suc fuel) r n m (loop_test-digit r₀ r k v x q at ∙ d), at)
]

-- ===== src/Util/Array/Remove.antt =====
-- What the walks of util/array.js come to.
use webtransport_gos.Prelude.{
  ℕ, suc, ◌+◌, ◌-◌, ◌≤◌, ◌≡◌, refl, ap, ◌∙◌, Bool, true, not, Option, some, List, [], ◌∷◌, ◌++◌,
  arith, if◌then◌else◌, length, get_elem?, take, drop, filter, append-nil, Bool-cases, inl, inr,
}
use mathlib.Core.Path.{subst}
use webtransport_gos.Util.Array.{down, each_loop, each, is_target, splice, remove}

module _ {A : Type 0} where
  -- A list whose front is given backwards.
  unroll : List A → List A → List A
  unroll [] ys = ys
  unroll (x ∷ r) ys = unroll r (x ∷ ys)

  get_elem?-unroll :
      (r ys : List A) (i : ℕ) → get_elem? (unroll r ys) (length r + i) ≡ get_elem? ys i
  unfolding unroll
  get_elem?-unroll [] ys i = ap (get_elem? ys) (omega arith)
  get_elem?-unroll (x ∷ r) ys i =
      ap (get_elem? (unroll r (x ∷ ys))) {x = suc (length r) + i} {y = length r + suc i}
        (omega arith)
      ∙ get_elem?-unroll r (x ∷ ys) (suc i)

  length-unroll : (r ys : List A) → length (unroll r ys) ≡ length r + length ys
  unfolding unroll
  length-unroll [] ys = omega arith
  length-unroll (x ∷ r) ys = omega (arith, length-unroll r (x ∷ ys))

  unroll-unroll : (xs ys zs : List A) → unroll (unroll xs ys) zs ≡ unroll ys (xs ++ zs)
  unfolding unroll
  unroll-unroll [] ys zs = refl
  unroll-unroll (x ∷ xs) ys zs = unroll-unroll xs (x ∷ ys) zs

  take-unroll : (r ys : List A) (i : ℕ) → take (length r + i) (unroll r ys) ≡ unroll r (take i ys)
  unfolding unroll
  take-unroll [] ys i = ap (λ k. take k ys) (omega arith)
  take-unroll (x ∷ r) ys i =
      ap (λ k. take k (unroll r (x ∷ ys))) {x = suc (length r) + i} {y = length r + suc i}
        (omega arith)
      ∙ take-unroll r (x ∷ ys) (suc i)

  drop-unroll : (r ys : List A) (i : ℕ) → drop (length r + i) (unroll r ys) ≡ drop i ys
  unfolding unroll
  drop-unroll [] ys i = ap (λ k. drop k ys) (omega arith)
  drop-unroll (x ∷ r) ys i =
      ap (λ k. drop k (unroll r (x ∷ ys))) {x = suc (length r) + i} {y = length r + suc i}
        (omega arith)
      ∙ drop-unroll r (x ∷ ys) (suc i)

  append-unroll : (r ys zs : List A) → unroll r ys ++ zs ≡ unroll r (ys ++ zs)
  unfolding unroll
  append-unroll [] ys zs = refl
  append-unroll (x ∷ r) ys zs = append-unroll r (x ∷ ys) zs

  splice-unroll : (r ys : List A) (x : A) → splice (unroll r (x ∷ ys)) (length r) ≡ unroll r ys
  splice-unroll r ys x =
      let front =
        ap (λ k. take k (unroll r (x ∷ ys))) {x = length r} {y = length r + 0} (omega arith)
        ∙ take-unroll r (x ∷ ys) 0 in
      let behind =
        ap (λ k. drop k (unroll r (x ∷ ys))) {x = suc (length r)} {y = length r + 1} (omega arith)
        ∙ drop-unroll r (x ∷ ys) 1 in
      rw (front, behind) (append-unroll r [] ys)

  module _ (same : A → A → Bool) (target : A) where
    -- The items that are not the target.
    abbrev pub others : List A → List A
    others xs = filter (λ x. not (same x target)) xs

    others-unroll : (r ys : List A) → others (unroll r ys) ≡ unroll (others r) (others ys)
    unfolding unroll
    others-unroll [] ys = refl
    others-unroll (x ∷ r) ys = elim (Bool-cases (same x target)) [
      | inl e ↦ rw e (others-unroll r (x ∷ ys) ∙ rw e refl)
      | inr e ↦ rw e (others-unroll r (x ∷ ys) ∙ rw e refl)
    ]

    length-others : (xs : List A) → length (others xs) ≤ length xs
    length-others [] = omega arith
    length-others (x ∷ xs) = ground (arith, length-others xs)

    -- The callback of `remove`.
    remove_item : Option A → ℕ → List A × ℕ → (List A × ℕ) × Bool
    remove_item item i s = (if is_target same target item then (splice s.0 i, s.1 + 1) else s, true)

    item_at : (r ys : List A) (x : A) → get_elem? (unroll r (x ∷ ys)) (length r) ≡ some x
    item_at r ys x =
        ap (get_elem? (unroll r (x ∷ ys))) {x = length r} {y = length r + 0} (omega arith)
        ∙ get_elem?-unroll r (x ∷ ys) 0

    remove_step :
        (r ys : List A) (x : A) (n : ℕ) (is : List ℕ)
        → each_loop (λ s. s.0) remove_item (length r ∷ is) (unroll r (x ∷ ys), n)
          ≡ each_loop
              (λ s. s.0)
              remove_item
              is
              (if same x target then (unroll r ys, n + 1) else (unroll r (x ∷ ys), n))
    unfolding each_loop remove_item is_target
    remove_step r ys x n is = elim (Bool-cases (same x target)) [
      | inl e ↦ rw (item_at r ys x, e, splice-unroll r ys x) refl
      | inr e ↦ rw (item_at r ys x, e) refl
    ]

    remove_loop :
        (r ys : List A) (n : ℕ)
        → each_loop (λ s. s.0) remove_item (down (length r)) (unroll r ys, n)
          ≡ (unroll (others r) ys, n + (length r - length (others r)))
    unfolding unroll
    remove_loop [] ys n = unfold each_loop in ap (λ k. (ys, k)) (omega arith)
    remove_loop (x ∷ r) ys n = elim (Bool-cases (same x target)) [
      | inl e ↦
          let below = length-others r in
          let count : n + 1 + (length r - length (others r))
              ≡ n + (suc (length r) - length (others r)) =
            omega (arith, below) in
          rw e
            (remove_step r ys x n (down (length r)) ∙ rw (e, remove_loop r ys (n + 1), count) refl)
      | inr e ↦
          let count : n + (length r - length (others r))
              ≡ n + (suc (length r) - suc (length (others r))) =
            omega arith in
          rw e
            (remove_step r ys x n (down (length r)) ∙ rw (e, remove_loop r (x ∷ ys) n, count) refl)
    ]

    abbrev Removed : List A → Type 0
    Removed array = remove same array target ≡ (others array, length array - length (others array))

    remove_unrolled : (r : List A) → Removed (unroll r [])
    unfolding remove each remove_item unroll
    remove_unrolled r =
        let all : length (unroll r []) ≡ length r = omega (arith, length-unroll r []) in
        let kept : length (unroll (others r) []) ≡ length (others r) =
          omega (arith, length-unroll (others r) []) in
        rw (all, others-unroll r [], kept)
          (remove_loop r [] 0 ∙ ap (λ k. (unroll (others r) [], k)) (omega arith))

    -- `remove` deletes every item that equals the target, keeps the others in order, and returns how
    -- many it deleted.
    pub remove_lem :
        (array : List A)
        → remove same array target ≡ (others array, length array - length (others array))
    remove_lem array =
        let same_array : unroll (unroll array []) [] ≡ array =
          unroll-unroll array [] [] ∙ (unfold unroll in append-nil array) in
        subst Removed same_array (remove_unrolled (unroll array []))

-- ===== src/Util/Array.antt =====
-- example/bjy-common/lib/util/array.js. A callback is given the object that it changes as a state, since
-- it may change the array that is walked.
pub mod Remove
use webtransport_gos.Prelude.{
  ℕ, zero, suc, ◌+◌, ◌-◌, Bool, true, false, not, ◌||◌, Option, none, some, List, [], ◌∷◌, ◌++◌,
  ◌==◌, ltb, if◌then◌else◌, length, get_elem?, take, drop,
}
use webtransport_gos.Util.{Text}
use webtransport_gos.Prelude.Int.{ℤ, pos, negsuc, leb_ℤ}

-- `0, …, n - 1` from `i` on, and `n - 1, …, 0`.
abbrev pub up : ℕ → ℕ → List ℕ
up i zero = []
up i (suc n) = i ∷ up (i + 1) n

abbrev pub down : ℕ → List ℕ
down zero = []
down (suc n) = n ∷ down n

module _ {A S : Type 0} where
  -- The two loops of `each`, over the indices that are left: the item is read from the array as it is by
  -- then, and the walk ends when the callback returns false.
  unfoldable pub each_loop : (S → List A) → (Option A → ℕ → S → S × Bool) → List ℕ → S → S
  each_loop view callback [] s = s
  each_loop view callback (i ∷ is) s =
      let (s', goes_on) = callback (get_elem? (view s) i) i s in
      let rest = each_loop view callback is s' in if goes_on then rest else s'

  -- `each(array, callback, reversed)`; the length is taken once.
  unfoldable pub each : (S → List A) → (Option A → ℕ → S → S × Bool) → Bool → S → S
  unfolding each_loop
  each view callback reversed s =
      let n = length (view s) in each_loop view callback (if reversed then down n else up 0 n) s

-- `value`, which is an item or an array of them.
pub data Value (A : Type 0) : Type 0 where
  one : A → Value A
  many : List A → Value A

module _ {A : Type 0} where
  native_push : List A → A → List A
  native_push array item = array ++ item ∷ []

  native_unshift : List A → A → List A
  native_unshift array item = item ∷ array

  -- `addItem(array, value, action)`, for a value that is not the array itself.
  unfoldable pub add_item : (List A → A → List A) → List A → Value A → List A
  unfolding each
  add_item action array (one value) = action array value
  add_item action array (many values) =
      each {A = A} {S = List A} (λ s. values)
        (λ item i s. (elim item [ none ↦ s | some a ↦ action s a ], true)) false array

  unfoldable pub push : List A → Value A → List A
  unfolding add_item native_push
  push array target = add_item native_push array target

  unfoldable pub unshift : List A → Value A → List A
  unfolding add_item native_unshift
  unshift array target = add_item native_unshift array target

  -- `array.splice(index, 1)`
  abbrev pub splice : List A → ℕ → List A
  splice array index = take index array ++ drop (suc index) array

  module _ (same : A → A → Bool) where
    -- `item == target` or `item === target`, where the item may be undefined.
    is_target : A → Option A → Bool
    is_target target none = false
    is_target target (some item) = same item target

    unfoldable pub index_of : List A → A → ℤ
    unfolding each is_target
    index_of array target =
        each {A = A} {S = ℤ} (λ s. array)
          (λ item i s. if is_target target item then (pos i, false) else (s, true)) false (negsuc 0)

    unfoldable pub has : List A → A → Bool
    unfolding index_of
    has array target = leb_ℤ (pos 0) (index_of array target)

    -- The array as it is left, and the number of items that were deleted.
    unfoldable pub remove : List A → A → List A × ℕ
    unfolding each is_target
    remove array target =
        each {A = A} {S = List A × ℕ} (λ s. s.0)
          (λ item i s. (if is_target target item then (splice s.0 i, s.1 + 1) else s, true)) true
          (array, 0)

  unfoldable pub last : List A → Option A
  last array = if ltb 0 (length array) then get_elem? array (length array - 1) else none

  -- `pop(array)`: the item, and the array without it.
  unfoldable pub pop : List A → Option A × List A
  unfolding last
  pop array = (last array, take (length array - 1) array)

  -- `falsy(array)`, of an array.
  unfoldable pub falsy : List A → Bool
  falsy array = length array == 0

-- `array.join(separator)`, of an array of text.
unfoldable pub join : List Text → Text → Text
join [] separator = []
join (x ∷ []) separator = x
join (x ∷ y ∷ array) separator = x ++ (separator ++ join (y ∷ array) separator)

-- ===== src/Util/Object/Differences.antt =====
-- `diff` of util/object.js: what it finds between an object and a copy of it.
use webtransport_gos.Prelude.{
  ℕ, ◌+◌, ◌<◌, ◌≢◌, ◌≡◌, refl, ap, sym, ◌∙◌, Bool, true, false, not, ◌&&◌, [], ◌∷◌, arith,
  if◌then◌else◌, Bool-cases, inl, inr,
}
use webtransport_gos.Prelude.Int.{eq_of_parts}
use webtransport_gos.NetString.Decimal.{decimal, value-decimal}
use webtransport_gos.NetString.Digits.{value}
use webtransport_gos.Util.{Text, same_text}
use webtransport_gos.Util.Value.{
  Value, Items, Fields, undefined, null, boolean, number, string, array, object, nil, item, end,
  field, is_nullish, same_primitive, lookup, insert, has_field, indexed,
}
use webtransport_gos.Util.String.Ends.{same_text_iff}
use webtransport_gos.Util.Object.{copy, read}
use webtransport_gos.Util.Object.Extend.{distinct_keys, lookup-insert, has_field-insert}
use webtransport_gos.Util.Object.Diff.{is_plain_object, differs, diff_items, diff_fields}
use webtransport_gos.Util.Object.Copies.{
  is_data, are_data, hold_data, both, neither, same_text_swap, copy_lem,
}

-- The items stand in the fields under their indices, from `i` on, and the fields under their keys.
abbrev ItemsIn : Items → ℕ → Fields → Type 0
ItemsIn nil i gs = ◌≡◌ {A = ℕ} 0 0
ItemsIn (item x xs) i gs =
    (has_field (decimal i) gs ≡ true) × (lookup (decimal i) gs ≡ x) × ItemsIn xs (i + 1) gs

abbrev FieldsIn : Fields → Fields → Type 0
FieldsIn end gs = ◌≡◌ {A = ℕ} 0 0
FieldsIn (field k v fs) gs = (has_field k gs ≡ true) × (lookup k gs ≡ v) × FieldsIn fs gs

decimal_differs : (i j : ℕ) → j < i → same_text (decimal j) (decimal i) ≡ false
decimal_differs i j h = elim (Bool-cases (same_text (decimal j) (decimal i))) [
  | inr other ↦ other
  | inl same ↦
      let texts = (same_text_iff (decimal j) (decimal i)).0 same in
      let numbers : j ≡ i = sym (value-decimal j) ∙ ap (value 0) texts ∙ value-decimal i in
      absurd (omega (arith, numbers))
]

ItemsIn-behind :
    (xs : Items) (i j : ℕ) (x : Value) (gs : Fields)
    → j < i
    → ItemsIn xs i gs
    → ItemsIn xs i (field (decimal j) x gs)
unfolding has_field lookup
ItemsIn-behind nil i j x gs h v = refl
ItemsIn-behind (item y xs) i j x gs h (has, at, rest) =
    let other = decimal_differs i j h in
    (ground (arith, other, has), rw other at, ItemsIn-behind xs (i + 1) j x gs (omega arith) rest)

same_text_self : (k : Text) → same_text k k ≡ true
same_text_self k = (same_text_iff k k).1 refl

ItemsIn-indexed : (xs : Items) (i : ℕ) → ItemsIn xs i (indexed i xs)
unfolding has_field lookup indexed
ItemsIn-indexed nil i = refl
ItemsIn-indexed (item x xs) i =
    let self = same_text_self (decimal i) in
    (
      rw self refl,
      rw self refl,
      ItemsIn-behind xs (i + 1) i x (indexed (i + 1) xs) (omega arith) (ItemsIn-indexed xs (i + 1)),
    )

FieldsIn-behind :
    (fs : Fields) (k : Text) (v : Value) (gs : Fields)
    → has_field k fs ≡ false
    → FieldsIn fs gs
    → FieldsIn fs (field k v gs)
unfolding has_field lookup
FieldsIn-behind end k v gs h r = refl
FieldsIn-behind (field j w fs) k v gs h (has, at, rest) =
    let other : same_text k j ≡ false = same_text_swap k j ∙ ground (arith, h) in
    (ground (arith, other, has), rw other at, FieldsIn-behind fs k v gs (ground (arith, h)) rest)

FieldsIn-self : (fs : Fields) → distinct_keys fs ≡ true → FieldsIn fs fs
unfolding has_field lookup
FieldsIn-self end h = refl
FieldsIn-self (field k v fs) h =
    let (first, rest) = both (not (has_field k fs)) _ h in
    let self = same_text_self k in
    (
      rw self refl,
      rw self refl,
      FieldsIn-behind fs k v fs (neither _ first) (FieldsIn-self fs rest),
    )

abbrev pub is_primitive : Value → Bool
is_primitive (array xs) = false
is_primitive (object fs) = false
is_primitive value = true

bool_same : (b c : Bool) → (if b then c else not c) ≡ true → b ≡ c
bool_same true c h = sym h
bool_same false true h = cc
bool_same false false h = refl

-- `===` holds of a primitive and itself only.
same_primitive_eq : (v w : Value) → same_primitive v w ≡ true → v ≡ w
unfolding same_primitive
same_primitive_eq undefined undefined h = refl
same_primitive_eq null null h = refl
same_primitive_eq (boolean b) (boolean c) h = ap boolean (bool_same b c h)
same_primitive_eq (number m) (number n) h = ap number (eq_of_parts m n (ground (arith, h)))
same_primitive_eq (string s) (string t) h = ap string ((same_text_iff s t).0 h)
same_primitive_eq _ _ h = cc

same_primitive_other : (v w : Value) → v ≢ w → same_primitive v w ≡ false
same_primitive_other v w n = elim (Bool-cases (same_primitive v w)) [
  | inl same ↦ absurd (n (same_primitive_eq v w same))
  | inr other ↦ other
]

module _ (inherited : Value → Text → Value) where
  read-array :
      (ys : Items) (key : Text) (x : Value)
      → has_field key (indexed 0 ys) ≡ true
      → lookup key (indexed 0 ys) ≡ x
      → read inherited (array ys) key ≡ x
  unfolding read
  read-array ys key x h e = rw h e

  read-object :
      (gs : Fields) (key : Text) (x : Value)
      → has_field key gs ≡ true
      → lookup key gs ≡ x
      → read inherited (object gs) key ≡ x
  unfolding read
  read-object gs key x h e = rw h e

  same_primitive_self : (b : Bool) → (if b then b else not b) ≡ true
  same_primitive_self true = refl
  same_primitive_self false = refl

  mutual
    unfolding differs diff_items diff_fields is_data are_data hold_data same_primitive

    differs_self : (v : Value) → is_data v ≡ true → differs inherited v v ≡ false
    differs_self undefined h = refl
    differs_self null h = refl
    differs_self (boolean b) h = ground (arith, same_primitive_self b)
    differs_self (number n) h = ground arith
    differs_self (string s) h = ap not (same_text_self s)
    differs_self (array xs) h =
        let none_differs = diff_items_none xs xs 0 h (ItemsIn-indexed xs 0) in rw none_differs refl
    differs_self (object fs) h =
        let (plain, inner) = both (is_plain_object (object fs)) _ h in
        let (distinct, data_fields) = both (distinct_keys fs) _ inner in
        let none_differs = diff_fields_none fs fs data_fields (FieldsIn-self fs distinct) in
        rw (plain, none_differs) refl

    diff_items_none :
        (xs ys : Items) (i : ℕ)
        → are_data xs ≡ true
        → ItemsIn xs i (indexed 0 ys)
        → diff_items inherited xs i (array ys) ≡ []
    diff_items_none nil ys i h v = refl
    diff_items_none (item x xs) ys i h (has, at, rest) =
        let (h₁, h₂) = both (is_data x) _ h in
        rw (read-array ys (decimal i) x has at, differs_self x h₁)
          (diff_items_none xs ys (i + 1) h₂ rest)

    diff_fields_none :
        (fs gs : Fields)
        → hold_data fs ≡ true
        → FieldsIn fs gs
        → diff_fields inherited fs (object gs) ≡ []
    diff_fields_none end gs h v = refl
    diff_fields_none (field k v fs) gs h (has, at, rest) =
        let (h₁, h₂) = both (is_data v) _ h in
        rw (read-object gs k v has at, differs_self v h₁) (diff_fields_none fs gs h₂ rest)

  -- Another object that differs at one key.
  change :
      (fs gs : Fields) (key : Text) (w : Value)
      → hold_data fs ≡ true
      → distinct_keys fs ≡ true
      → FieldsIn fs gs
      → diff_fields inherited fs (object (insert key w gs))
        ≡ (if has_field key fs && differs inherited (lookup key fs) w then key ∷ [] else [])
  unfolding diff_fields hold_data has_field lookup
  change end gs key w h d v = refl
  change (field k v fs) gs key w h d (has, at, rest) =
      let (h₁, h₂) = both (is_data v) _ h in
      let (new, d₂) = both (not (has_field k fs)) _ d in
      let others = change fs gs key w h₂ d₂ rest in
      let value_read =
        read-object (insert key w gs) k (if same_text key k then w else v)
          (ground (arith, has_field-insert k key w gs, has))
          (lookup-insert k key w gs ∙ rw at refl) in
      let unchanged = differs_self v h₁ in
      elim (Bool-cases (same_text key k)) [
        | inl same ↦
            let keys : key ≡ k = (same_text_iff key k).0 same in
            let swapped = same_text_swap k key ∙ same in
            let absent : has_field key fs ≡ false = rw keys (neither _ new) in
            let no_others : diff_fields inherited fs (object (insert key w gs)) ≡ [] =
              others ∙ rw absent refl in
            rw (value_read, same, swapped, no_others, keys) refl
        | inr other ↦
            let swapped = same_text_swap k key ∙ other in
            rw (value_read, other, swapped, unchanged) others
      ]

  -- A primitive differs from every other value.
  differs_primitive : (v w : Value) → is_primitive v ≡ true → v ≢ w → differs inherited v w ≡ true
  unfolding differs
  differs_primitive undefined w h n = ap not (same_primitive_other undefined w n)
  differs_primitive null w h n = ap not (same_primitive_other null w n)
  differs_primitive (boolean b) w h n = ap not (same_primitive_other (boolean b) w n)
  differs_primitive (number x) w h n = ap not (same_primitive_other (number x) w n)
  differs_primitive (string s) w h n = ap not (same_primitive_other (string s) w n)
  differs_primitive (array xs) w h n = cc
  differs_primitive (object fs) w h n = cc

  -- For an object of data, in which every object is plain and has each key once: `diff` finds no
  -- difference to a deep copy; and after a primitive value of the copy was replaced by any other value, it
  -- finds just the key of this value.
  pub diff-copy :
      (fs : Fields) (key : Text) (w : Value)
      → is_data (object fs) ≡ true
      → has_field key fs ≡ true
      → is_primitive (lookup key fs) ≡ true
      → lookup key fs ≢ w
      → (gs : Fields) × (copy true (object fs) ≡ object gs)
        × (diff_fields inherited fs (object gs) ≡ [])
        × (diff_fields inherited fs (object (insert key w gs)) ≡ key ∷ [])
  unfolding is_data
  diff-copy fs key w h has primitive other =
      let (plain, inner) = both (is_plain_object (object fs)) _ h in
      let (distinct, data_fields) = both (distinct_keys fs) _ inner in
      let same = FieldsIn-self fs distinct in
      (
        fs,
        copy_lem (object fs) h,
        diff_fields_none fs fs data_fields same,
        change fs fs key w data_fields distinct same
            ∙ rw (has, differs_primitive (lookup key fs) w primitive other) refl,
      )

  -- An object without fields differs from nothing but null and undefined.
  differs_empty : (w : Value) → is_nullish w ≡ false → differs inherited (object end) w ≡ false
  unfolding differs diff_fields is_plain_object lookup
  differs_empty w h = rw h refl

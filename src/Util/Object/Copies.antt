-- ===== src/Util/Object/Copies.antt =====
-- `copy` of util/object.js, on plain data.
use webtransport_gos.Prelude.{
  ◌≡◌, refl, ap, sym, ◌∙◌, Bool, true, false, not, ◌&&◌, ◌||◌, [], ◌∷◌, arith,
}
use webtransport_gos.Util.{Text, same_text}
use webtransport_gos.Util.Value.{
  Value, Items, Fields, undefined, null, boolean, number, string, array, object, nil, item, end,
  field, insert, has_field,
}
use webtransport_gos.Util.Object.{copy, copy_items, copy_fields}
use webtransport_gos.Util.Object.Extend.{distinct_keys}
use webtransport_gos.Util.Object.Diff.{is_plain_object}

-- Every object in it is plain and has each key once.
unfoldable mutual
  pub is_data : Value → Bool
  is_data (array xs) = are_data xs
  is_data (object fs) = is_plain_object (object fs) && (distinct_keys fs && hold_data fs)
  is_data _ = true

  pub are_data : Items → Bool
  are_data nil = true
  are_data (item x xs) = is_data x && are_data xs

  pub hold_data : Fields → Bool
  hold_data end = true
  hold_data (field k v fs) = is_data v && hold_data fs

pub both : (a b : Bool) → (a && b) ≡ true → (a ≡ true) × (b ≡ true)
both a b h = (ground arith, ground arith)

pub neither : (a : Bool) → not a ≡ true → a ≡ false
neither a h = ground arith

abbrev append : Fields → Fields → Fields
append end gs = gs
append (field k v fs) gs = field k v (append fs gs)

append-end : (fs : Fields) → append fs end ≡ fs
append-end end = refl
append-end (field k v fs) = ap (field k v) (append-end fs)

-- No key of the first stands in the second, or twice.
abbrev are_new : Fields → Fields → Bool
are_new end gs = true
are_new (field k v fs) gs = not (has_field k gs) && (not (has_field k fs) && are_new fs gs)

has_field-snoc :
    (j k : Text) (v : Value) (fs : Fields)
    → has_field j (append fs (field k v end)) ≡ (has_field j fs || same_text k j)
unfolding has_field
has_field-snoc j k v end = ground arith
has_field-snoc j k v (field i w fs) = ground (arith, has_field-snoc j k v fs)

insert-append :
    (k : Text) (v : Value) (fs : Fields)
    → has_field k fs ≡ false
    → insert k v fs ≡ append fs (field k v end)
unfolding has_field insert
insert-append k v end h = refl
insert-append k v (field i w fs) h = ground (arith, h, insert-append k v fs)

append_assoc :
    (fs : Fields) (k : Text) (v : Value) (gs : Fields)
    → append (append fs (field k v end)) gs ≡ append fs (field k v gs)
append_assoc end k v gs = refl
append_assoc (field i w fs) k v gs = ap (field i w) (append_assoc fs k v gs)

pub same_text_swap : (xs ys : Text) → same_text xs ys ≡ same_text ys xs
unfolding same_text
same_text_swap [] [] = refl
same_text_swap [] (y ∷ ys) = refl
same_text_swap (x ∷ xs) [] = refl
same_text_swap (x ∷ xs) (y ∷ ys) = ground (arith, same_text_swap xs ys)

are_new-snoc :
    (fs gs : Fields) (k : Text) (v : Value)
    → are_new fs gs ≡ true
    → has_field k fs ≡ false
    → are_new fs (append gs (field k v end)) ≡ true
unfolding has_field
are_new-snoc end gs k v h n = refl
are_new-snoc (field i w fs) gs k v h n =
    ground (arith, h, n, has_field-snoc i k v gs, same_text_swap i k, are_new-snoc fs gs k v)

are_new-end : (fs : Fields) → distinct_keys fs ≡ true → are_new fs end ≡ true
unfolding has_field
are_new-end end h = refl
are_new-end (field k v fs) h = ground (arith, h, are_new-end fs)

mutual
  unfolding is_data are_data hold_data copy copy_items copy_fields

  -- A deep copy of data is the same tree.
  pub copy_lem : (v : Value) → is_data v ≡ true → copy true v ≡ v
  copy_lem undefined h = refl
  copy_lem null h = refl
  copy_lem (boolean b) h = refl
  copy_lem (number n) h = refl
  copy_lem (string s) h = refl
  copy_lem (array xs) h = ap array (copy_items_lem xs h)
  copy_lem (object fs) h =
      let (plain, inner) = both (is_plain_object (object fs)) _ h in
      let (distinct, data_fields) = both (distinct_keys fs) _ inner in
      ap object (copy_fields-append fs end data_fields (are_new-end fs distinct))

  copy_items_lem : (xs : Items) → are_data xs ≡ true → copy_items xs ≡ xs
  copy_items_lem nil h = refl
  copy_items_lem (item x xs) h =
      let (h₁, h₂) = both (is_data x) _ h in rw (copy_lem x h₁, copy_items_lem xs h₂) refl

  copy_fields-append :
      (fs result : Fields)
      → hold_data fs ≡ true
      → are_new fs result ≡ true
      → copy_fields true fs result ≡ append result fs
  copy_fields-append end result h n = sym (append-end result)
  copy_fields-append (field k v fs) result h n =
      let (h₁, h₂) = both (is_data v) _ h in
      let (n₁, n') = both (not (has_field k result)) _ n in
      let (n₂, n₃) = both (not (has_field k fs)) _ n' in
      let placed = insert-append k v result (neither _ n₁) in
      let rest =
        copy_fields-append fs (append result (field k v end)) h₂
          (are_new-snoc fs result k v n₃ (neither _ n₂)) in
      rw (copy_lem v h₁, placed) (rest ∙ append_assoc result k v fs)

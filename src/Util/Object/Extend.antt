-- ===== src/Util/Object/Extend.antt =====
-- `extend` of util/object.js by what can be looked up afterwards, and the laws of the fields.
use webtransport_gos.Prelude.{
  ℕ, zero, suc, ◌≡◌, refl, Bool, true, not, ◌&&◌, ◌||◌, none, some, arith, if◌then◌else◌,
}
use webtransport_gos.Util.{Text, same_text}
use webtransport_gos.Util.Value.{Value, Fields, end, field, lookup, insert, has_field}
use webtransport_gos.Util.String.Ends.{same_text_iff}
use webtransport_gos.Util.Object.{extend, assign, each_field}

pub lookup-insert :
    (j k : Text) (v : Value) (fs : Fields)
    → lookup j (insert k v fs) ≡ (if same_text k j then v else lookup j fs)
unfolding lookup insert
lookup-insert j k v end = refl
lookup-insert j k v (field i w fs) =
    ground (arith, same_text_iff k j, same_text_iff i k, same_text_iff i j, lookup-insert j k v fs)

pub has_field-insert :
    (j k : Text) (v : Value) (fs : Fields)
    → has_field j (insert k v fs) ≡ (same_text k j || has_field j fs)
unfolding has_field insert
has_field-insert j k v end = refl
has_field-insert j k v (field i w fs) =
    ground
      (arith, same_text_iff k j, same_text_iff i k, same_text_iff i j, has_field-insert j k v fs)

-- No key stands twice, as in every object.
abbrev pub distinct_keys : Fields → Bool
distinct_keys end = true
distinct_keys (field k v fs) = not (has_field k fs) && distinct_keys fs

pub lookup-assign :
    (j : Text) (original fs : Fields)
    → distinct_keys fs ≡ true
    → lookup j (assign original fs) ≡ (if has_field j fs then lookup j fs else lookup j original)
unfolding assign each_field lookup has_field
lookup-assign j original end h = refl
lookup-assign j original (field k v fs) h =
    let rest = lookup-assign j (insert k v original) fs (ground (arith, h)) in
    ground (arith, rest, lookup-insert j k v original, same_text_iff k j)

-- `extend` of objects: a key has the value of the last argument that has it. An argument in front that
-- is no object is passed over, and an object in the middle that is none ends the call.
pub extend_lem :
    (j : Text) (original first second : Fields)
    → distinct_keys first ≡ true
    → distinct_keys second ≡ true
    → (fs : Fields) × (extend 1 (some original) (some first) (some second) ≡ some (some fs))
      × (extend 2 none (some original) (some first) ≡ some (some (assign original first)))
      × (lookup j fs ≡ (
          if has_field j second
          then lookup j second
          else if has_field j first
          then lookup j first
          else lookup j original))
unfolding extend
extend_lem j original first second h k =
    let inner = lookup-assign j original first h in
    let outer = lookup-assign j (assign original first) second k in
    (assign (assign original first) second, refl, refl, ground (arith, inner, outer))

-- With no object among its arguments `extend` calls itself for ever.
pub extend_never_ends : (fuel : ℕ) → extend fuel none none none ≡ none
unfolding extend
extend_never_ends zero = refl
extend_never_ends (suc fuel) = extend_never_ends fuel

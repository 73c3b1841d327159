-- ===== src/Util/Object.antt =====
-- example/bjy-common/lib/util/object.js and the tests of lib/util/is.js on plain data. `inherited`
-- stands for what a value has that is not a field or an item of it: its prototype chain, the length of
-- an array, and the properties of primitives.
pub mod Paths
pub mod Extend
pub mod Sort
pub mod Diff
pub mod Convert
pub mod Copies
pub mod Differences
use webtransport_gos.Prelude.{
  ℕ, zero, suc, ◌+◌, Bool, true, false, not, ◌&&◌, ◌||◌, Option, none, some, List, [], ◌∷◌, ◌++◌,
  ◌==◌, if◌then◌else◌, length, ltb,
}
use webtransport_gos.Prelude.Int.{ℤ, leb_ℤ}
use webtransport_gos.NetString.Decimal.{decimal}
use webtransport_gos.Util.{Text, same_text}
use webtransport_gos.Util.Value.{
  Value, Items, Fields, undefined, null, boolean, number, string, array, object, nil, item, end,
  field, is_nullish, is_truthy, same_primitive, has_field, lookup, insert, delete, field_names,
  indexed,
}
use webtransport_gos.Util.Keypath.{parts, each}

-- `is.array`, `is.object`, `is.string`, `is.number`, `is.boolean` and `is.range`.
abbrev pub is_array : Value → Bool
is_array (array xs) = true
is_array _ = false

abbrev pub is_object : Value → Bool
is_object (array xs) = true
is_object (object fs) = true
is_object _ = false

abbrev pub is_string : Value → Bool
is_string (string s) = true
is_string _ = false

abbrev pub is_number : Value → Bool
is_number (number n) = true
is_number _ = false

abbrev pub is_boolean : Value → Bool
is_boolean (boolean b) = true
is_boolean _ = false

unfoldable pub range : ℤ → ℤ → ℤ → Bool
range value min max = leb_ℤ min value && leb_ℤ value max

-- `for (let key in object)`: what can be enumerated of a value.
unfoldable pub enumerable : Value → Fields
enumerable (array xs) = indexed 0 xs
enumerable (object fs) = fs
enumerable (string s) = characters 0 s
  where
    characters : ℕ → Text → Fields
    characters i [] = end
    characters i (c ∷ s) = field (decimal i) (string (c ∷ [])) (characters (i + 1) s)
enumerable _ = end

-- `keys(object)`, where `isDef` tests for `undefined` only: of null it throws, `none`.
unfoldable pub keys : Value → Option (List Text)
keys null = none
keys value = some (field_names (enumerable value))

module _ {S : Type 0} where
  -- The loop of `each`, over the fields that are left.
  unfoldable pub each_field : (Value → Text → S → S × Bool) → Fields → S → S
  each_field callback end s = s
  each_field callback (field k v fs) s =
      let (s', goes_on) = callback v k s in
      let rest = each_field callback fs s' in if goes_on then rest else s'

-- `clear(object)`, of the fields of an object.
unfoldable pub clear : Fields → Fields
unfolding each_field
clear fs = each_field {S = Fields} (λ v k s. (delete k s, true)) fs fs

-- `each(object, function (value, key) { original[key] = value; })`
unfoldable pub assign : Fields → Fields → Fields
unfolding each_field
assign original fs = each_field {S = Fields} (λ v k s. (insert k v s, true)) fs original

-- `extend(original, object, object2)`, on fuel; `none` is an argument that is no object, and the outer
-- `none` a call that needs more rounds.
unfoldable pub extend : ℕ → Option Fields → Option Fields → Option Fields → Option (Option Fields)
unfolding assign
extend zero original first second = none
extend (suc fuel) none first second = extend fuel first second none
extend (suc fuel) (some original) none second = some (some original)
extend (suc fuel) (some original) (some first) none = some (some (assign original first))
extend (suc fuel) (some original) (some first) (some second) =
    some (some (assign (assign original first) second))

-- `merge(object1, object2)`, where an argument is an object or null.
unfoldable pub merge : Option Fields → Option Fields → Option Fields
unfolding assign
merge none object2 = object2
merge (some object1) none = some object1
merge (some object1) (some object2) = some (assign (assign end object1) object2)

-- `copy(object, deep)`; a copy that is not deep shares its parts with the object.
unfoldable mutual
  pub copy : Bool → Value → Value
  copy deep (array xs) = if deep then array (copy_items xs) else array xs
  copy deep (object fs) = object (copy_fields deep fs end)
  copy deep value = value

  copy_items : Items → Items
  copy_items nil = nil
  copy_items (item x xs) = item (copy true x) (copy_items xs)

  copy_fields : Bool → Fields → Fields → Fields
  copy_fields deep end result = result
  copy_fields deep (field k v fs) result =
      copy_fields deep fs (insert k (if deep then copy deep v else v) result)

-- `if (result === constant.UNDEFINED) result = defaultValue`
abbrev pub or_default : Value → Value → Value
or_default undefined default_value = default_value
or_default result default_value = result

module _ (inherited : Value → Text → Value) where
  -- `object[key]`, of a value that is not null or undefined.
  unfoldable pub read : Value → Text → Value
  read (object fs) key = if has_field key fs then lookup key fs else inherited (object fs) key
  read (array xs) key =
      if has_field key (indexed 0 xs) then lookup key (indexed 0 xs) else inherited (array xs) key
  read value key = inherited value key

  -- `has(object, key)`
  unfoldable pub has : Value → Text → Bool
  has value key = elim (read value key) [ undefined ↦ false | _ ↦ true ]

  -- The callback of `get`, on `object` and `result`.
  unfoldable pub get_part : Text → Bool → Value × Value → (Value × Value) × Bool
  unfolding read
  get_part key is_last (value, result) =
      if is_nullish value
      then ((value, undefined), false)
      else if is_last
      then ((value, read value key), true)
      else ((read value key, result), true)

  -- `get(object, keypath, defaultValue)`
  unfoldable pub get : Value → Text → Value → Value
  unfolding each get_part
  get value keypath default_value =
      or_default (each get_part keypath (value, undefined)).1 default_value

-- What a step of `set` finds: the object to go into, or nothing, which ends the walk, or a value that
-- counts as true and is no plain object. What the walk does in such a value is not modelled.
pub data Found : Type 0 where
  goes_into : Fields → Found
  stops : Found
  fails : Found

abbrev pub found : Bool → Value → Found
found autofill (object gs) = goes_into gs
found autofill value = if is_truthy value then fails else if autofill then goes_into end else stops

-- The object that a step goes into is written back into the one that it was taken from.
abbrev pub write_back : Text → Fields → (Fields → Option Fields) → Found → Option Fields
write_back key fs inner (goes_into gs) = elim (inner gs) [
  | none ↦ none
  | some hs ↦ some (insert key (object hs) fs)
]
write_back key fs inner stops = some fs
write_back key fs inner fails = none

-- The walk of `set` over the parts of the path.
unfoldable pub set_part : Value → Bool → Text → List Text → Fields → Option Fields
set_part value autofill key [] fs = some (insert key value fs)
set_part value autofill key (next ∷ others) fs =
    write_back key fs (set_part value autofill next others) (found autofill (lookup key fs))

-- `set(object, keypath, value, autofill)`, of a plain object without inherited properties on the path;
-- `none` is a path into an array or a primitive.
unfoldable pub set : Fields → Text → Value → Bool → Option Fields
unfolding set_part
set fs keypath value autofill = set_part value autofill (parts keypath).0 (parts keypath).1 fs

unfoldable pub falsy : Value → Bool
falsy (object fs) = length (field_names fs) == 0
falsy _ = true

-- `toArray(data)`
unfoldable pub to_array : Fields → List Value
unfolding each_field
to_array fs = each_field {S = List Value} (λ v k s. (s ++ v ∷ [], true)) fs []

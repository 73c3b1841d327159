-- ===== src/Util/Object/Paths.antt =====
-- `set` and `get` of util/object.js along a path.
use webtransport_gos.Prelude.{◌||◌, ◌≡◌, Bool, true, not, ◌&&◌, List, [], ◌∷◌}
use webtransport_gos.Util.{Text, same_text}
use webtransport_gos.Util.Value.{Value, Fields, object, end, lookup, has_field, is_truthy}

-- What a step of the path finds is a plain object, or counts as nothing.
abbrev pub is_open : Value → Bool
is_open (object gs) = true
is_open value = not (is_truthy value)

abbrev pub fields_in : Value → Fields
fields_in (object gs) = gs
fields_in value = end

-- No step of a path goes into an array or a primitive.
abbrev pub is_path : Text → List Text → Fields → Bool
is_path key [] fs = true
is_path key (next ∷ others) fs =
    is_open (lookup key fs) && is_path next others (fields_in (lookup key fs))

-- The path leads through own properties to a value.
abbrev pub Reaches : Text → List Text → Fields → Value → Type 0
Reaches key [] fs v = (has_field key fs ≡ true) × (lookup key fs ≡ v)
Reaches key (next ∷ others) fs v =
    (has_field key fs ≡ true)
    × ((gs : Fields) × (lookup key fs ≡ object gs) × Reaches next others gs v)

-- What stands at a path of own properties, or `undefined`.
abbrev pub at_path : Text → List Text → Fields → Value
at_path key [] fs = lookup key fs
at_path key (next ∷ others) fs = at_path next others (fields_in (lookup key fs))

-- Two paths of which none leads into what the other leads to.
abbrev pub diverge : Text → List Text → Text → List Text → Bool
diverge key (next ∷ others) j (i ∷ is) = not (same_text key j) || diverge next others i is
diverge key others j is = not (same_text key j)

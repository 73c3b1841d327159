-- ===== src/Util/Object/Diff.antt =====
-- `diff` of util/object.js, and `isPlainObject` of util/is.js, on plain data.
use webtransport_gos.Prelude.{
  ℕ, ◌+◌, Bool, false, not, ◌||◌, List, [], ◌∷◌, if◌then◌else◌, length, ltb,
}
use webtransport_gos.NetString.Decimal.{decimal}
use webtransport_gos.Util.{Text}
use webtransport_gos.Util.Literal.{codes}
use webtransport_gos.Util.Value.{
  Value, Items, Fields, array, object, nil, item, end, field, is_nullish, is_truthy, same_primitive,
  lookup,
}
use webtransport_gos.Util.Object.{read}

-- An array has another constructor than an object. No object holds itself as `window`, and all that can
-- be enumerated is its own.
unfoldable pub is_plain_object : Value → Bool
is_plain_object (object fs) = not (is_truthy (lookup (codes "nodeType") fs))
is_plain_object _ = false

module _ (inherited : Value → Text → Value) where
  -- `diff(obj1, obj2)`, where `obj2` is not null or undefined: the keys, and whether the value of one
  -- differs. Two objects of which the first is not plain are not the same.
  unfoldable mutual
    unfolding read

    pub differs : Value → Value → Bool
    differs (array xs) other = is_nullish other || ltb 0 (length (diff_items xs 0 other))
    differs (object fs) other =
        not (is_plain_object (object fs))
        || (is_nullish other || ltb 0 (length (diff_fields fs other)))
    differs value other = not (same_primitive value other)

    pub diff_items : Items → ℕ → Value → List Text
    diff_items nil i other = []
    diff_items (item x xs) i other =
        let rest = diff_items xs (i + 1) other in
        if differs x (read inherited other (decimal i)) then decimal i ∷ rest else rest

    pub diff_fields : Fields → Value → List Text
    diff_fields end other = []
    diff_fields (field k v fs) other =
        let rest = diff_fields fs other in
        if differs v (read inherited other k) then k ∷ rest else rest

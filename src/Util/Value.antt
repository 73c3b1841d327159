-- ===== src/Util/Value.antt =====
-- The values of JavaScript that lib/util/object.js and lib/util/is.js tell apart: plain data, as trees.
-- The keys of an object are in the order of insertion; that the runtime puts keys that are indices in
-- front is not modelled. Functions, and objects with another prototype, are left out.
use webtransport_gos.Prelude.{
  ℕ, ◌+◌, Bool, true, false, not, ◌&&◌, ◌||◌, List, [], ◌∷◌, ◌==◌, if◌then◌else◌, length,
}
use webtransport_gos.Prelude.Int.{ℤ, pos, leb_ℤ}
use webtransport_gos.NetString.Decimal.{decimal}
use webtransport_gos.Util.{Text, same_text}

mutual
  pub data Value : Type 0 where
    undefined : Value
    null : Value
    boolean : Bool → Value
    number : ℤ → Value
    string : Text → Value
    array : Items → Value
    object : Fields → Value

  pub data Items : Type 0 where
    nil : Items
    item : Value → Items → Items

  pub data Fields : Type 0 where
    end : Fields
    field : Text → Value → Fields → Fields

-- `value == null`
abbrev pub is_nullish : Value → Bool
is_nullish undefined = true
is_nullish null = true
is_nullish _ = false

-- Whether `if (value)` takes the branch.
abbrev pub is_truthy : Value → Bool
is_truthy undefined = false
is_truthy null = false
is_truthy (boolean b) = b
is_truthy (number n) = not (leb_ℤ n (pos 0) && leb_ℤ (pos 0) n)
is_truthy (string s) = not (length s == 0)
is_truthy (array xs) = true
is_truthy (object fs) = true

-- `===`, where one side is a primitive.
unfoldable pub same_primitive : Value → Value → Bool
same_primitive undefined undefined = true
same_primitive null null = true
same_primitive (boolean b) (boolean c) = if b then c else not c
same_primitive (number m) (number n) = leb_ℤ m n && leb_ℤ n m
same_primitive (string s) (string t) = same_text s t
same_primitive _ _ = false

unfoldable pub has_field : Text → Fields → Bool
has_field key end = false
has_field key (field k v fs) = let rest = has_field key fs in same_text k key || rest

-- The value of an own property, or `undefined`.
unfoldable pub lookup : Text → Fields → Value
lookup key end = undefined
lookup key (field k v fs) = let rest = lookup key fs in if same_text k key then v else rest

-- `object[key] = value`
unfoldable pub insert : Text → Value → Fields → Fields
insert key value end = field key value end
insert key value (field k v fs) =
    let rest = insert key value fs in if same_text k key then field k value fs else field k v rest

-- `delete object[key]`
unfoldable pub delete : Text → Fields → Fields
delete key end = end
delete key (field k v fs) =
    let rest = delete key fs in if same_text k key then fs else field k v rest

unfoldable pub field_names : Fields → List Text
field_names end = []
field_names (field k v fs) = k ∷ field_names fs

-- The properties of an array that can be enumerated, from index `i` on.
unfoldable pub indexed : ℕ → Items → Fields
indexed i nil = end
indexed i (item x xs) = field (decimal i) x (indexed (i + 1) xs)

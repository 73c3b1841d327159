-- ===== src/Util/Object/Convert.antt =====
-- What util/object.js, util/array.js and util/is.js convert. The conversions of the runtime are
-- parameters.
use webtransport_gos.Prelude.{
  Bool, true, false, ◌&&◌, ◌||◌, none, some, List, [], ◌∷◌, ◌++◌, ◌==◌, if◌then◌else◌,
}
use webtransport_gos.Util.{Text}
use webtransport_gos.Util.Literal.{codes}
use webtransport_gos.Util.Array
use webtransport_gos.Util.Value.{Value, Fields, string, end, is_nullish, is_truthy, insert}
use webtransport_gos.Util.Object.{is_array, is_number, read, enumerable, each_field}
use webtransport_gos.Util.Object.Diff.{is_plain_object}

-- `numeric(value)`; `parses` and `finite` are `!isNaN(parseFloat(value))` and `isFinite(+value)` of text.
unfoldable pub numeric : (Text → Bool) → (Text → Bool) → Value → Bool
numeric parses finite (string s) = parses s && finite s
numeric parses finite value = is_number value

-- `toObject(array, key, value)`; `key_of` makes the key of a property. The key
-- is empty when none is given, which the test of the code does not tell apart.
unfoldable pub to_object :
    (Value → Text → Value) → (Value → Text) → List Value → Text → Value → Fields
to_object inherited key_of items key value =
    Array.each {A = Value} {S = Fields} (λ s. items)
      (λ element i s. (
        elim element [
          | none ↦ s
          | some x ↦
              insert (key_of (elim key [ [] ↦ x | k ∷ ks ↦ read inherited x (k ∷ ks) ]))
                (if is_truthy value then value else x) s
        ],
        true,
      ))
      false end

-- `replace(/%20/g, '+')`
unfoldable pub replace_spaces : Text → Text
replace_spaces (a ∷ b ∷ c ∷ str) = elim (a == 37 && (b == 50 && c == 48)) [
  | true ↦ 43 ∷ replace_spaces str
  | false ↦ a ∷ replace_spaces (b ∷ c ∷ str)
]
replace_spaces str = str

module _ (text_of : Value → Text) (encode_uri_component : Text → Text) where
  -- `add(key, value)`
  unfoldable pub add : Value → Text → Text
  add value key =
      encode_uri_component key
      ++ (codes "=" ++ encode_uri_component (if is_nullish value then [] else text_of value))

  -- `param(data)`, of data without functions.
  unfoldable pub param : Value → Text
  unfolding each_field add replace_spaces
  param value =
      let result =
        if is_array value || is_plain_object value
        then each_field {S = List Text} (λ v k s. (s ++ add v k ∷ [], true)) (enumerable value) []
        else [] in
      replace_spaces (Array.join result (codes "&"))

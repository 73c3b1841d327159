-- ===== src/Tests/Utilities.antt =====
-- Concrete runs of the helpers of example/bjy-common/lib/util.
use webtransport_gos.Prelude.{◌≡◌, ◌↔◌, refl, true, List, [], ◌∷◌, ◌++◌, ◌==◌, inl, inr, arith}
use webtransport_gos.Prelude.Int.{pos, leb_ℤ}
use webtransport_gos.Util.{Text, same_text}
use webtransport_gos.Util.Base64.{base642_uint8_array, base64_decode}
use webtransport_gos.Util.Base64.RoundTrip.{unpadded, base642_uint8_array_lem}
use webtransport_gos.Util.Base64.Utf8.{utf8_of, utf8_unit, base64_decode_lem}
use webtransport_gos.Util.Base64.Groups.{base64_of, char_of}
use webtransport_gos.Util.Array.{remove}
use webtransport_gos.Util.Array.Remove.{remove_lem}
use webtransport_gos.Util.String.{ends_with}
use webtransport_gos.Util.String.Ends.{ends_with_iff}
use webtransport_gos.Util.Keypath.{match_prefix, split}
use webtransport_gos.Util.Keypath.Match.{match_prefix_iff}
use webtransport_gos.Util.Value.{
  Value, Fields, undefined, boolean, number, object, array, nil, item, end, field, lookup,
  has_field, insert,
}
use webtransport_gos.Util.Object.{copy}
use webtransport_gos.Util.Object.Diff.{diff_fields, is_plain_object}
use webtransport_gos.Util.Object.Copies.{is_data, are_data, hold_data}
use webtransport_gos.Util.Object.Differences.{diff-copy}

-- "AQID", a line feed and "/w": the bytes 1, 2, 3 and 255.
abbrev hash_text : Text
hash_text = 65 ∷ 81 ∷ 73 ∷ 68 ∷ 10 ∷ 47 ∷ 119 ∷ []

base642_uint8_array_lem_example : base642_uint8_array hash_text ≡ 1 ∷ 2 ∷ 3 ∷ 255 ∷ 0 ∷ 0 ∷ []
unfolding unpadded char_of
base642_uint8_array_lem_example =
    base642_uint8_array_lem hash_text (1 ∷ 2 ∷ 3 ∷ 255 ∷ [])
      (omega arith, (omega arith, (omega arith, (omega arith, tt)))) (inr refl)

-- "w6nigqw=": e with an acute accent, and the euro sign.
abbrev accents : Text
accents = 119 ∷ 54 ∷ 110 ∷ 105 ∷ 103 ∷ 113 ∷ 119 ∷ 61 ∷ []

base64_decode_lem_example : base64_decode accents ≡ 233 ∷ 8364 ∷ []
unfolding base64_of utf8_of utf8_unit char_of
base64_decode_lem_example =
    base64_decode_lem accents (233 ∷ 8364 ∷ [])
      ((omega arith, inl (omega arith)), ((omega arith, inl (omega arith)), tt)) (inl refl)

remove_lem_example : remove (λ x y. x == y) (2 ∷ 2 ∷ 3 ∷ 2 ∷ []) 2 ≡ (3 ∷ [], 3)
remove_lem_example = remove_lem (λ x y. x == y) 2 (2 ∷ 2 ∷ 3 ∷ 2 ∷ [])

-- "a.b.c" and "a.b"
match_prefix_iff_example :
    (leb_ℤ (pos 0) (match_prefix (97 ∷ 46 ∷ 98 ∷ 46 ∷ 99 ∷ []) (97 ∷ 46 ∷ 98 ∷ [])) ≡ true) ↔ (
      (rest : List Text) × (split (97 ∷ 46 ∷ 98 ∷ 46 ∷ 99 ∷ [])
        ≡ split (97 ∷ 46 ∷ 98 ∷ []) ++ rest))
match_prefix_iff_example = match_prefix_iff (97 ∷ 46 ∷ 98 ∷ 46 ∷ 99 ∷ []) (97 ∷ 46 ∷ 98 ∷ [])

ends_with_iff_example :
    (ends_with (97 ∷ 98 ∷ 97 ∷ 98 ∷ []) (97 ∷ 98 ∷ []) ≡ true)
    ↔ ((front : Text) × (97 ∷ 98 ∷ 97 ∷ 98 ∷ [] ≡ front ++ 97 ∷ 98 ∷ []))
ends_with_iff_example = ends_with_iff (97 ∷ 98 ∷ 97 ∷ 98 ∷ []) (97 ∷ 98 ∷ [])

-- {a: {c: true}}, and no property that is inherited.
abbrev fields : Fields
fields = field (97 ∷ []) (object (field (99 ∷ []) (boolean true) end)) end

abbrev nothing : Value → Text → Value
nothing value key = undefined

-- {a: {b: 1}, c: [2], d: 3}
abbrev tree : Fields
tree =
    field (97 ∷ []) (object (field (98 ∷ []) (number (pos 1)) end))
      (field (99 ∷ []) (array (item (number (pos 2)) nil)) (field (100 ∷ []) (number (pos 3)) end))

tree-is_data : is_data (object tree) ≡ true
unfolding is_data are_data hold_data is_plain_object lookup has_field same_text
tree-is_data = refl

-- `d` was set to an array.
diff-copy_example :
    (gs : Fields) × (copy true (object tree) ≡ object gs)
    × (diff_fields nothing tree (object gs) ≡ [])
    × (diff_fields nothing tree (object (insert (100 ∷ []) (array nil) gs)) ≡ (100 ∷ []) ∷ [])
unfolding has_field lookup same_text
diff-copy_example = diff-copy nothing tree (100 ∷ []) (array nil) tree-is_data refl refl (λ e. cc)

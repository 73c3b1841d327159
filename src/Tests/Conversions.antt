-- ===== src/Tests/Conversions.antt =====
-- Concrete runs of lib/function and of the conversions of lib/util.
use webtransport_gos.Prelude.{ℕ, ◌≡◌, refl, true, some, [], ◌∷◌, ◌++◌, ◌==◌, if◌then◌else◌}
use webtransport_gos.Prelude.Int.{pos}
use webtransport_gos.Util.{Text, same_text}
use webtransport_gos.Util.Literal.{codes}
use webtransport_gos.Util.Value.{
  Value, undefined, null, number, string, object, end, field, lookup, has_field, insert,
}
use webtransport_gos.Util.String.{trim, has, index_of, leads}
use webtransport_gos.Util.Keypath.{match_fuzzy, replace_double}
use webtransport_gos.Util.Array.{join, each}
use webtransport_gos.Util.Object.{enumerable, read}
use webtransport_gos.Util.Object.Convert.{param, replace_spaces, to_object}
use webtransport_gos.Util.Object.Diff.{diff_fields, differs, is_plain_object}
use webtransport_gos.Session.Asking.{transport_url}
use webtransport_gos.Functions.{many, applies, execute, is_native}

abbrev nothing : Value → Text → Value
nothing value key = undefined

abbrev text_of : Value → Text
text_of (string s) = s
text_of value = codes "?"

-- `encodeURIComponent` of a space alone.
abbrev encode_spaces : Text → Text
encode_spaces [] = []
encode_spaces (c ∷ str) = (if c == 32 then codes "%20" else c ∷ []) ++ encode_spaces str

param_of_fields :
    param text_of encode_spaces
      (object (field (codes "a b") (string (codes "c d")) (field (codes "e") null end)))
    ≡ codes "a+b=c+d&e="
unfolding param replace_spaces join is_plain_object lookup same_text enumerable
param_of_fields = refl

trimmed : trim (λ c. c == 32) (codes "  a b ") ≡ codes "a b"
unfolding trim
trimmed = refl

wildcard :
    match_fuzzy (λ keypath pattern. some pattern) (codes "a.b") (codes "a.*")
    ≡ some (codes "^a\\.(\\w+)$")
unfolding match_fuzzy replace_double
wildcard = refl

url : transport_url (codes "webtransport://host:1/a") ≡ codes "https://host:1/a"
unfolding transport_url same_text
url = refl

other_url : transport_url (codes "wss://webtransport:1") ≡ codes "wss://webtransport:1"
unfolding transport_url same_text
other_url = refl

by_key :
    to_object nothing text_of
      (object (field (codes "id") (string (codes "x")) end) ∷ [])
      (codes "id")
      undefined
    ≡ field (codes "x") (object (field (codes "id") (string (codes "x")) end)) end
unfolding to_object each insert read has_field lookup same_text
by_key = refl

-- The first object holds one without fields, and the second a number in its place.
no_difference :
    diff_fields nothing
      (field (codes "k") (object end) end)
      (object (field (codes "k") (number (pos 5)) end))
    ≡ []
unfolding diff_fields differs read has_field lookup same_text is_plain_object
no_difference = refl

native : is_native true (codes "function setImmediate() { [native code] }") ≡ true
unfolding is_native has index_of leads
native = refl

called :
    execute {C = ℕ} {A = ℕ} true (some 1) (some (many (2 ∷ 3 ∷ [])))
    ≡ some (applies (some 1) (2 ∷ 3 ∷ []))
unfolding execute
called = refl

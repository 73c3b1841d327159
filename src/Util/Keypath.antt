-- ===== src/Util/Keypath.antt =====
-- example/bjy-common/lib/util/keypath.js: paths of names with dots between. The caches hold what the
-- functions compute again, so they are left out.
pub mod Match
pub mod Fuzzy
use webtransport_gos.Prelude.{
  ℕ, zero, suc, ◌+◌, Bool, true, false, ◌&&◌, Option, none, some, List, [], ◌∷◌, ◌++◌, ◌==◌,
  if◌then◌else◌, length,
}
use webtransport_gos.Prelude.Int.{ℤ, pos, negsuc}
use webtransport_gos.Util.Literal.{codes}
use webtransport_gos.Util.{Text, same_text}
use webtransport_gos.Util.String

-- `constant.RAW_DOT` and `constant.RAW_WILDCARD`, as code units.
abbrev pub raw_dot : ℕ
raw_dot = 46

abbrev pub raw_wildcard : ℕ
raw_wildcard = 42

-- `keypath.split('.')`: the first part and the others.
unfoldable pub parts : Text → Text × List Text
parts [] = ([], [])
parts (c ∷ keypath) =
    let (first, others) = parts keypath in
    if c == raw_dot then ([], first ∷ others) else (c ∷ first, others)

abbrev pub split : Text → List Text
split keypath = (parts keypath).0 ∷ (parts keypath).1

-- `match(keypath, prefix)`
unfoldable pub match_prefix : Text → Text → ℤ
match_prefix keypath prefix =
    let dotted = prefix ++ raw_dot ∷ [] in
    if same_text keypath prefix
    then pos (length prefix)
    else if String.starts_with keypath dotted
    then pos (length dotted)
    else negsuc 0

module _ {S : Type 0} where
  -- The loop of `each`: the callback is told whether the part is the last one, and ends the walk by
  -- returning false.
  unfoldable pub each_part : (Text → Bool → S → S × Bool) → Text → List Text → S → S
  each_part callback part [] s = (callback part true s).0
  each_part callback part (next ∷ others) s =
      let (s', goes_on) = callback part false s in
      let rest = each_part callback next others s' in if goes_on then rest else s'

  unfoldable pub each : (Text → Bool → S → S × Bool) → Text → S → S
  unfolding each_part
  each callback keypath s = each_part callback (parts keypath).0 (parts keypath).1 s

-- `join(keypath1, keypath2)`; an empty text counts as no path.
unfoldable pub join : Text → Text → Text
join [] keypath2 = keypath2
join (c ∷ keypath1) [] = c ∷ keypath1
join (c ∷ keypath1) (d ∷ keypath2) = (c ∷ keypath1) ++ (raw_dot ∷ d ∷ keypath2)

unfoldable pub is_fuzzy : Text → Bool
is_fuzzy keypath = String.has keypath (raw_wildcard ∷ [])

unfoldable pub root_path : Text → Text
root_path keypath = (parts keypath).0

-- `str.replace(/c/g, by)`, of one character.
abbrev pub replace_char : ℕ → Text → Text → Text
replace_char c by [] = []
replace_char c by (d ∷ str) =
    let rest = replace_char c by str in (if d == c then by else d ∷ []) ++ rest

-- `str.replace(/\*\*/g, by)`
unfoldable pub replace_double : Text → Text → Text
replace_double by [] = []
replace_double by (c ∷ []) = c ∷ []
replace_double by (c ∷ d ∷ str) =
    let behind = replace_double by str in
    let rest = replace_double by (d ∷ str) in
    if (c == raw_wildcard) && (d == raw_wildcard) then by ++ behind else c ∷ rest

-- `'\\.'`, `'(\\w+)'` and `'([\.\\w]+?)'`
abbrev pub dot_source : Text
dot_source = 92 ∷ 46 ∷ []

abbrev pub word_source : Text
word_source = 40 ∷ 92 ∷ 119 ∷ 43 ∷ 41 ∷ []

abbrev pub words_source : Text
words_source = 40 ∷ 91 ∷ 46 ∷ 92 ∷ 119 ∷ 93 ∷ 43 ∷ 63 ∷ 41 ∷ []

-- `str` of `matchFuzzy`: the source of the regular expression, without the `^` and `$` around it.
unfoldable pub fuzzy_source : Text → Text
fuzzy_source pattern_text =
    replace_double words_source
      (replace_char raw_wildcard word_source (replace_char raw_dot dot_source pattern_text))

-- `matchFuzzy(keypath, pattern)`, without the cache: `match` is that of a text with a regular expression,
-- and gives the first group if it succeeds.
unfoldable pub match_fuzzy : (Text → Text → Option Text) → Text → Text → Option Text
unfolding fuzzy_source
match_fuzzy match keypath pattern_text =
    match keypath (codes "^" ++ (fuzzy_source pattern_text ++ codes "$"))

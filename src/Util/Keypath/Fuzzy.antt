-- ===== src/Util/Keypath/Fuzzy.antt =====
-- The pattern that `matchFuzzy` of util/keypath.js builds.
use webtransport_gos.Prelude.{◌≡◌, ◌≢◌, refl, [], ◌∷◌, arith, All}
use webtransport_gos.Util.{Text}
use webtransport_gos.Util.Keypath.{
  raw_dot, raw_wildcard, replace_char, replace_double, dot_source, word_source, words_source,
  fuzzy_source,
}

abbrev NoWildcard : Text → Type 0
NoWildcard str = All (λ c. c ≢ raw_wildcard) str

replace_char-NoWildcard : (str : Text) → NoWildcard (replace_char raw_wildcard word_source str)
replace_char-NoWildcard [] = tt
replace_char-NoWildcard (c ∷ str) = ground (arith, replace_char-NoWildcard str)

replace_double-NoWildcard : (by str : Text) → NoWildcard str → replace_double by str ≡ str
unfolding replace_double
replace_double-NoWildcard by [] h = refl
replace_double-NoWildcard by (c ∷ []) h = refl
replace_double-NoWildcard by (c ∷ d ∷ str) h =
    ground (arith, h, replace_double-NoWildcard by (d ∷ str) h.1)

-- The replacement of `**` never finds one: the replacement of `*` has taken them all.
pub fuzzy_source_lem :
    (pattern_text : Text)
    → fuzzy_source pattern_text
      ≡ replace_char raw_wildcard word_source (replace_char raw_dot dot_source pattern_text)
unfolding fuzzy_source
fuzzy_source_lem pattern_text =
    replace_double-NoWildcard words_source _
      (replace_char-NoWildcard (replace_char raw_dot dot_source pattern_text))

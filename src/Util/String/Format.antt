-- ===== src/Util/String/Format.antt =====
-- `format` of util/string.js. `string_of` and `number_of` are `String(arg)` and `toString(Number(arg))`.
use webtransport_gos.Prelude.{
  ℕ, ◌≡◌, refl, Bool, ◌||◌, ◌&&◌, List, [], ◌∷◌, ◌++◌, ◌==◌, if◌then◌else◌, arith,
}
use webtransport_gos.Util.{Text}

-- `[sdv%]`
abbrev pub is_directive : ℕ → Bool
is_directive c = (c == 115) || ((c == 100) || ((c == 118) || (c == 37)))

module _ {A : Type 0} (string_of number_of : A → Text) where
  -- The `switch` over the directive.
  unfoldable pub replacement : ℕ → A → Text
  replacement c arg =
      if c == 37
      then 37 ∷ []
      else if c == 115
      then string_of arg
      else if c == 100
      then number_of arg
      else []

  -- `format(string, args)`: each directive takes the next argument, and stays if there is none.
  unfoldable pub format : Text → List A → Text
  format [] args = []
  format (c ∷ []) args = c ∷ []
  format (c ∷ d ∷ text) [] =
      let after_two = format text [] in
      let after_one = format (d ∷ text) [] in
      if (c == 37) && is_directive d then c ∷ d ∷ after_two else c ∷ after_one
  format (c ∷ d ∷ text) (arg ∷ args) =
      let after_two = format text args in
      let after_one = format (d ∷ text) (arg ∷ args) in
      if (c == 37) && is_directive d then replacement d arg ++ after_two else c ∷ after_one

  -- Without arguments nothing is replaced, `%%` neither.
  pub format-no_args : (text : Text) → format text [] ≡ text
  unfolding format
  format-no_args [] = refl
  format-no_args (c ∷ []) = refl
  format-no_args (c ∷ d ∷ text) = ground (arith, format-no_args text, format-no_args (d ∷ text))

  -- `%%` uses up an argument, which the next directive then misses.
  pub format_percent : (arg : A) → format (37 ∷ 37 ∷ 37 ∷ 115 ∷ []) (arg ∷ []) ≡ 37 ∷ 37 ∷ 115 ∷ []
  unfolding format replacement
  format_percent arg = refl

-- ===== src/Util.antt =====
-- example/bjy-common/lib/util: the helpers that the other parts share. Text is the list of its UTF-16
-- code units.
pub mod Bits
pub mod Base64
pub mod Array
pub mod String
pub mod Keypath
pub mod Value
pub mod Object
pub mod Literal
pub mod Logger
use webtransport_gos.Prelude.{ℕ, Bool, true, false, ◌&&◌, List, [], ◌∷◌, ◌==◌}

abbrev pub Text : Type 0
Text = List ℕ

-- `===` on text.
unfoldable pub same_text : Text → Text → Bool
same_text [] [] = true
same_text [] (y ∷ ys) = false
same_text (x ∷ xs) [] = false
same_text (x ∷ xs) (y ∷ ys) = (x == y) && same_text xs ys

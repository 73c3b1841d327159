-- ===== src/Util/Literal.antt =====
-- The text literals of example/bjy-common/lib/util.
use Prim.Native.Char.{code}
use Prim.Native.String.{String}
use webtransport_gos.Prelude.{[], ◌∷◌}
use webtransport_gos.Util.{Text}

-- The code units of a literal whose characters are below U+10000.
abbrev pub codes : String → Text
codes String.[] = []
codes (String.◌∷◌ c s) = code c ∷ codes s

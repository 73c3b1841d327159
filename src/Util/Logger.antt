-- ===== src/Util/Logger.antt =====
-- example/bjy-common/lib/util/logger.js. What it does to the outside is a list of acts: the arguments
-- of `console.log`, or an Error. There is a console.
use webtransport_gos.Prelude.{
  ℕ, ◌≡◌, refl, Bool, true, Option, none, some, List, [], ◌∷◌, ◌++◌, leb, ◌==◌, if◌then◌else◌,
  length, arith, ◌&&◌,
}
use webtransport_gos.Util.{Text}
use webtransport_gos.Util.Literal.{codes}

abbrev pub level_trace : ℕ
level_trace = 0

abbrev pub level_debug : ℕ
level_debug = 1

abbrev pub level_info : ℕ
level_info = 2

abbrev pub level_warn : ℕ
level_warn = 3

abbrev pub level_error : ℕ
level_error = 4

abbrev pub level_fatal : ℕ
level_fatal = 5

-- The state of the module: `BJY_LOG_LEVEL` if it is set, the default level of the build, whether the
-- console knows styles, and the default tag.
pub record Logger : Type 0 where
  pub level : Option ℕ
  pub default_level : ℕ
  pub styled : Bool
  pub default_tag : Text

pub data Act : Type 0 where
  console_log : List Text → Act
  throws : Text → Act

abbrev pub optional : Option Text → List Text
optional none = []
optional (some args) = args ∷ []

-- `printLog`: the function for consoles with styles, and the other one, which is called with the style
-- in the place of its `args`. An `args` that is given counts as true.
unfoldable pub print_log : Logger → Text → Text → Text → Option Text → Act
print_log l tag msg style args =
    if l.styled
    then console_log ((codes "%c" ++ tag) ∷ style ∷ msg ∷ optional args)
    else console_log (tag ∷ msg ∷ style ∷ [])

unfoldable pub get_log_level : Logger → ℕ
get_log_level l = elim l.level [
  | none ↦ l.default_level
  | some level ↦ if leb level_trace level && leb level level_fatal then level else l.default_level
]

unfoldable pub set_level : ℕ → Logger → Logger
set_level level l = record l { level = some level }

unfoldable pub set_default_tag : Text → Logger → Logger
set_default_tag tag l = record l { default_tag = tag }

unfoldable pub get_style : Text → Text
get_style color =
    codes "background-color:"
    ++ (color ++ codes ";border-radius:12px;color:#fff;font-size:10px;padding:3px 6px;")

-- `tag || defaultTag`
abbrev pub tag_or_default : Logger → Text → Text
tag_or_default l tag = if length tag == 0 then l.default_tag else tag

-- What the functions for the levels below FATAL share.
abbrev pub print_from : ℕ → Text → Text → Logger → Text → Text → Option Text → List Act
print_from level name color l msg tag args =
    if leb (get_log_level l) level
    then print_log l (tag_or_default l tag ++ name) msg (get_style color) args ∷ []
    else []

unfoldable pub trace : Logger → Text → Text → List Act
trace l msg tag = print_from level_trace (codes " trace") (codes "#999") l msg tag none

unfoldable pub debug : Logger → Text → Text → List Act
debug l msg tag = print_from level_debug (codes " debug") (codes "#999") l msg tag none

unfoldable pub info : Logger → Text → Text → List Act
info l msg tag = print_from level_info (codes " info") (codes "#2db7f5") l msg tag none

unfoldable pub call : Logger → Text → Text → Option Text → List Act
call l msg tag args = print_from level_info (codes " info") (codes "#66cdaa") l msg tag args

unfoldable pub warn : Logger → Text → Text → List Act
warn l msg tag = print_from level_warn (codes " warn") (codes "#f90") l msg tag none

unfoldable pub error : Logger → Text → Text → List Act
error l msg tag = print_from level_error (codes " error") (codes "#ed4014") l msg tag none

unfoldable pub fatal : Logger → Text → Text → List Act
fatal l msg tag =
    if leb (get_log_level l) level_fatal
    then throws (codes "[" ++ (tag_or_default l tag ++ (codes " fatal]: " ++ msg))) ∷ []
    else []

-- `log(level, msg, tag)`
unfoldable pub log : Logger → ℕ → Text → Text → List Act
unfolding trace debug info warn error fatal
log l level msg tag =
    if level == level_trace
    then trace l msg tag
    else if level == level_debug
    then debug l msg tag
    else if level == level_info
    then info l msg tag
    else if level == level_warn
    then warn l msg tag
    else if level == level_error
    then error l msg tag
    else if level == level_fatal
    then fatal l msg tag
    else []

-- `log` acts once if the level is one of the six and the current level is not above it, and otherwise
-- not at all.
pub length-log :
    (l : Logger) (level : ℕ) (msg tag : Text)
    → length (log l level msg tag)
      ≡ (if leb level level_fatal && leb (get_log_level l) level then 1 else 0)
unfolding log
length-log l level msg tag = ground arith

-- No level that can be set keeps `fatal` from throwing.
pub fatal_throws :
    (l : Logger) (msg tag : Text) (default_ok : leb l.default_level level_fatal ≡ true)
    → length (fatal l msg tag) ≡ 1
unfolding fatal get_log_level
fatal_throws l msg tag default_ok = go l.level refl
  where
    go : (x : Option ℕ) → l.level ≡ x → length (fatal l msg tag) ≡ 1
    go none e = rw e (ground (arith, default_ok))
    go (some level) e = rw e (ground (arith, default_ok))

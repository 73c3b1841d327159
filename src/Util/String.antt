-- ===== src/Util/String.antt =====
-- example/bjy-common/lib/util/string.js. `indexOf` and `lastIndexOf` of a text are written out.
pub mod Ends
pub mod Format
use mathlib.Core.List.{reverse}
use webtransport_gos.Prelude.{
  ℕ, zero, suc, ◌+◌, ◌-◌, Bool, true, false, ◌&&◌, Option, none, some, List, [], ◌∷◌, ◌++◌, ltb,
  leb, ◌==◌, if◌then◌else◌, length, take, drop, get_elem?,
}
use webtransport_gos.Prelude.Int.{ℤ, pos, negsuc, leb_ℤ}
use webtransport_gos.Util.{Text}

-- Whether `part` stands at the front of `str`.
unfoldable pub leads : Text → Text → Bool
leads [] str = true
leads (c ∷ part) [] = false
leads (c ∷ part) (d ∷ str) = (c == d) && leads part str

-- `str.indexOf(part, i)`, with `n` places left to look at.
abbrev pub find_from : ℕ → Text → Text → ℕ → ℤ
find_from zero str part i = negsuc 0
find_from (suc n) str part i =
    let later = find_from n str part (i + 1) in if leads part (drop i str) then pos i else later

-- `indexOf(str, part, start)`; a start past the end is taken for the end.
unfoldable pub index_of : Text → Text → Option ℕ → ℤ
index_of str part none = find_from (length str + 1) str part 0
index_of str part (some start) =
    let i = if ltb (length str) start then length str else start in
    find_from (length str + 1 - i) str part i

-- `str.lastIndexOf(part, i)`
abbrev pub find_back : ℕ → Text → Text → ℤ
find_back zero str part = if leads part str then pos 0 else negsuc 0
find_back (suc i) str part =
    let earlier = find_back i str part in
    if leads part (drop (suc i) str) then pos (suc i) else earlier

-- `lastIndexOf(str, part, end)`
unfoldable pub last_index_of : Text → Text → Option ℕ → ℤ
last_index_of str part none = find_back (length str) str part
last_index_of str part (some end) =
    find_back (if ltb (length str) end then length str else end) str part

abbrev is_at : ℕ → ℤ → Bool
is_at n (pos k) = k == n
is_at n (negsuc k) = false

unfoldable pub starts_with : Text → Text → Bool
unfolding index_of
starts_with str part = is_at 0 (index_of str part none)

-- `offset` is not negative when the second test is made.
unfoldable pub ends_with : Text → Text → Bool
unfolding last_index_of
ends_with str part =
    leb (length part) (length str) && is_at (length str - length part) (last_index_of str part none)

unfoldable pub has : Text → Text → Bool
unfolding index_of
has str part = leb_ℤ (pos 0) (index_of str part none)

-- `falsy(str)`, of a text.
unfoldable pub falsy : Text → Bool
falsy str = length str == 0

-- `str.slice(start, end)`, where a negative place is counted from the end.
abbrev pub place : Text → ℤ → ℕ
place str (pos n) = n
place str (negsuc k) = length str - suc k

unfoldable pub slice : Text → ℤ → Option ℤ → Text
slice str start none = drop (place str start) str
slice str start (some end) = take (place str end - place str start) (drop (place str start) str)

-- `str.charAt(index || 0)` and `str.charCodeAt(index || 0)`; past the end there is no character, and the
-- code is NaN, `none`.
unfoldable pub char_at : Text → Option ℕ → Text
char_at str none = take 1 str
char_at str (some index) = take 1 (drop index str)

unfoldable pub code_at : Text → Option ℕ → Option ℕ
code_at str none = get_elem? str 0
code_at str (some index) = get_elem? str index

-- `capitalize(str)`, without its cache: `str.replace(/^[a-z]/, upper)`.
unfoldable pub capitalize : Text → Text
capitalize [] = []
capitalize (c ∷ str) = if leb 97 c && leb c 122 then (c - 32) ∷ str else c ∷ str

-- `trim(str)`, by the white space of the runtime.
abbrev pub trim_start : (ℕ → Bool) → Text → Text
trim_start is_space [] = []
trim_start is_space (c ∷ str) =
    let rest = trim_start is_space str in if is_space c then rest else c ∷ str

unfoldable pub trim : (ℕ → Bool) → Text → Text
trim is_space str =
    if length str == 0
    then []
    else reverse (trim_start is_space (reverse (trim_start is_space str)))

-- ===== src/Js/Bytes.antt =====
-- Typed arrays of bytes as lists of numbers: `subarray`, `set`, and equality byte by byte.
use webtransport_gos.Prelude.{
  ℕ, zero, suc, ◌+◌, ◌-◌, ◌≤◌, ◌<◌, ◌≡◌, refl, ap, ◌∙◌, List, [], ◌∷◌, ◌++◌, arith, ltb, leb,
  if◌then◌else◌, length, get_or, take, drop, length-append, length-take, length-drop,
}
use webtransport_gos.Js.Exn.{Result, ok, err, range_error}

abbrev pub Bytes : Type 0
Bytes = List ℕ

-- The byte at an index, 0 past the end.
abbrev pub byte_at : Bytes → ℕ → ℕ
byte_at xs i = get_or xs i 0

-- `xs.subarray(from, to)`; both ends are clamped to the array.
abbrev pub subarray : Bytes → ℕ → ℕ → Bytes
subarray xs from to = take (to - from) (drop from xs)

-- `xs` with `ys` copied over it from `offset` on.
unfoldable pub overlay : Bytes → Bytes → ℕ → Bytes
overlay xs ys offset = take offset xs ++ (ys ++ drop (offset + length ys) xs)

-- `xs.set(ys, offset)`, which throws if `ys` does not fit.
unfoldable pub set_bytes : Bytes → Bytes → ℕ → Result Bytes
set_bytes xs ys offset =
    if leb (offset + length ys) (length xs) then ok (overlay xs ys offset) else err range_error

-- `new Uint8Array(n)`: n zeros.
abbrev pub zeros : ℕ → Bytes
zeros zero = []
zeros (suc n) = 0 ∷ zeros n

-- The bytes `f 0, …, f (n - 1)`.
unfoldable pub tabulate : (ℕ → ℕ) → ℕ → Bytes
tabulate f zero = []
tabulate f (suc n) = f 0 ∷ tabulate (λ i. f (suc i)) n

pub length-zeros : (n : ℕ) → length (zeros n) ≡ n
length-zeros zero = refl
length-zeros (suc n) = ap suc (length-zeros n)

pub length-tabulate : (f : ℕ → ℕ) (n : ℕ) → length (tabulate f n) ≡ n
unfolding tabulate
length-tabulate f zero = refl
length-tabulate f (suc n) = ap suc (length-tabulate (λ i. f (suc i)) n)

pub byte_at-tabulate : (f : ℕ → ℕ) (n i : ℕ) → i < n → byte_at (tabulate f n) i ≡ f i
unfolding tabulate
byte_at-tabulate f zero i h = absurd (omega arith)
byte_at-tabulate f (suc n) zero h = refl
byte_at-tabulate f (suc n) (suc i) h = byte_at-tabulate (λ j. f (suc j)) n i (omega arith)

pub byte_at-append :
    (xs ys : Bytes) (i : ℕ)
    → byte_at (xs ++ ys) i
      ≡ (if ltb i (length xs) then byte_at xs i else byte_at ys (i - length xs))
byte_at-append [] ys i = ground arith
byte_at-append (x ∷ xs) ys zero = ground arith
byte_at-append (x ∷ xs) ys (suc i) = ground (arith, byte_at-append xs ys i)

pub byte_at-take : (n : ℕ) (xs : Bytes) (i : ℕ) → i < n → byte_at (take n xs) i ≡ byte_at xs i
byte_at-take zero xs i h = absurd (omega arith)
byte_at-take (suc n) [] i h = refl
byte_at-take (suc n) (x ∷ xs) zero h = refl
byte_at-take (suc n) (x ∷ xs) (suc i) h = byte_at-take n xs i (omega arith)

pub byte_at-drop : (n : ℕ) (xs : Bytes) (i : ℕ) → byte_at (drop n xs) i ≡ byte_at xs (n + i)
byte_at-drop zero xs i = ap (byte_at xs) (omega arith)
byte_at-drop (suc n) [] i = refl
byte_at-drop (suc n) (x ∷ xs) i =
    byte_at-drop n xs i ∙ ap (byte_at (x ∷ xs)) {x = suc (n + i)} {y = suc n + i} (omega arith)

pub bytes_ext :
    (xs ys : Bytes)
    → length xs ≡ length ys
    → ((i : ℕ) → i < length xs → byte_at xs i ≡ byte_at ys i)
    → xs ≡ ys
bytes_ext [] [] e h = refl
bytes_ext [] (y ∷ ys) e h = absurd (omega arith)
bytes_ext (x ∷ xs) [] e h = absurd (omega arith)
bytes_ext (x ∷ xs) (y ∷ ys) e h =
    cc (h 0 (omega arith), bytes_ext xs ys (omega arith) (λ i p. h (suc i) (omega arith)))

pub length-overlay :
    (xs ys : Bytes) (o : ℕ) → o + length ys ≤ length xs → length (overlay xs ys o) ≡ length xs
unfolding overlay
length-overlay xs ys o h = omega (
  arith,
  length-append (take o xs) (ys ++ drop (o + length ys) xs),
  length-append ys (drop (o + length ys) xs),
  length-take o xs,
  length-drop (o + length ys) xs,
)

-- A byte of the overlay: from `ys` inside its range, from `xs` outside.
pub byte_at-overlay :
    (xs ys : Bytes) (o i : ℕ)
    → o + length ys ≤ length xs
    → byte_at (overlay xs ys o) i ≡ (
        if ltb i o
        then byte_at xs i
        else if ltb i (o + length ys)
        then byte_at ys (i - o)
        else byte_at xs i)
unfolding overlay
byte_at-overlay xs ys o i h = ground (
  arith,
  byte_at-append (take o xs) (ys ++ drop (o + length ys) xs) i,
  byte_at-append ys (drop (o + length ys) xs) (i - o),
  length-take o xs,
  byte_at-take o xs i,
  byte_at-drop (o + length ys) xs (i - o - length ys),
)

pub length-subarray :
    (xs : Bytes) (from to : ℕ)
    → from ≤ to
    → to ≤ length xs
    → length (subarray xs from to) ≡ to - from
length-subarray xs from to h k =
    omega (arith, length-take (to - from) (drop from xs), length-drop from xs)

pub set_bytes_fits :
    (xs ys : Bytes) (o : ℕ) → o + length ys ≤ length xs → set_bytes xs ys o ≡ ok (overlay xs ys o)
unfolding set_bytes
set_bytes_fits xs ys o h = ground arith

pub byte_at-subarray :
    (xs : Bytes) (from to i : ℕ)
    → i < to - from
    → byte_at (subarray xs from to) i ≡ byte_at xs (from + i)
byte_at-subarray xs from to i h =
    byte_at-take (to - from) (drop from xs) i h ∙ byte_at-drop from xs i

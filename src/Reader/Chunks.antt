-- ===== src/Reader/Chunks.antt =====
-- How a stream is cut into chunks makes no difference to the messages that are delivered.
use webtransport_gos.Prelude.{
  Option, none, ℕ, ◌+◌, ◌≤◌, ◌≡◌, refl, sym, Bool, some, List, [], ◌∷◌, ◌++◌, arith, length, map,
  append_assoc, length-append, append-nil,
}
use mathlib.Core.List.{map-append}
use webtransport_gos.Js.Exn.{Result, ok, err, ◌>>=◌}
use webtransport_gos.Js.Bytes.{Bytes}
use webtransport_gos.Prelude.Int.{ℤ, pos}
use webtransport_gos.NetString.Encode.{encode, encode-netstring}
use webtransport_gos.Ring.{Ring, new_ring}
use webtransport_gos.Ring.Bounds.{IsValid, new_ring-IsValid}
use webtransport_gos.Ring.Contents.{contents, contents-new_ring}
use webtransport_gos.NetString.{Decoded, decode}
use webtransport_gos.NetString.Grammar.{more, parse}
use webtransport_gos.NetString.Stream.{
  Message, message, left, ending, Spells, stop, LeftOf, decode_lem,
}
use webtransport_gos.NetString.Spelling.{
  Spells-unique, Spells-left, Spells-Split, Sent, text, sent, Sendable, text-Spells,
}
use webtransport_gos.Reader.{read_chunks}

abbrev pub concat : List Bytes → Bytes
concat [] = []
concat (x ∷ xs) = x ++ concat xs

-- A chunk that is decoded without a throw, and the loop behind it.
read_chunks-ok :
    (e : Bool) (r r' : Ring) (x : Bytes) (xs : List Bytes)
    → (decode e r (some x)).outcome ≡ ok r'
    → let rest = read_chunks e r' xs in
      read_chunks e r (x ∷ xs)
      ≡ record { frames = (decode e r (some x)).frames ++ rest.frames; outcome = rest.outcome }
unfolding read_chunks
read_chunks-ok e r r' x xs h = rw (h, read_chunks)

abbrev Reads : Decoded → List Message → Bytes → Type 0
Reads d ms t = (map message d.frames ≡ ms) × (ending d.outcome ≡ left t)

-- A chunk after which the bytes so far spell `ms` is decoded without a throw.
decode_chunk :
    (e : Bool) (r : Ring) (x t : Bytes) (ms : List Message)
    → IsValid r
    → r.len + length x ≤ r.size
    → Spells e (contents r ++ x) ms (left t)
    → (r' : Ring) × ((decode e r (some x)).outcome ≡ ok r')
      × (map message (decode e r (some x)).frames ≡ ms)
      × (contents r' ≡ t)
      × LeftOf r x (ok r')
decode_chunk e r x t ms v fits s =
    let (spelt, kept) = decode_lem e r x v fits in
    let (same, end) = Spells-unique spelt s in go (decode e r (some x)).outcome refl same end kept
  where
    go :
        (o : Result Ring)
        → (decode e r (some x)).outcome ≡ o
        → map message (decode e r (some x)).frames ≡ ms
        → ending (decode e r (some x)).outcome ≡ left t
        → LeftOf r x (decode e r (some x)).outcome
        → (r' : Ring) × ((decode e r (some x)).outcome ≡ ok r')
          × (map message (decode e r (some x)).frames ≡ ms)
          × (contents r' ≡ t)
          × LeftOf r x (ok r')
    go (ok r') h same end kept = (r', h, same, cc (rw h at end), rw h at kept)
    go (err y) h same end kept = cc (rw h at end)

-- If the bytes held and all the chunks spell `ms` and leave `t`, then the loop delivers `ms` and
-- leaves `t`, however the stream was cut, as long as everything fits in the buffer.
pub read_chunks_lem :
    (e : Bool) (xs : List Bytes) (r : Ring) (t : Bytes) (ms : List Message)
    → IsValid r
    → r.len + length (concat xs) ≤ r.size
    → parse e (contents r) ≡ more
    → Spells e (contents r ++ concat xs) ms (left t)
    → (map message (read_chunks e r xs).frames ≡ ms)
      × (ending (read_chunks e r xs).outcome ≡ left t)
read_chunks_lem e [] r t ms v fits waits s =
    unfold read_chunks in Spells-unique (stop waits) (rw append-nil at s)
read_chunks_lem e (x ∷ xs) r t ms v fits waits s =
    let shorter = length-append x (concat xs) in
    let (front, behind, held, s₁, s₂, whole) =
      Spells-Split (contents r ++ x) (concat xs) t ms (rw (← append_assoc) at s) in
    let (r', done, same, kept, (v', size, len)) =
      decode_chunk e r x held front v (omega (arith, shorter)) s₁ in
    let (rest, end) =
      read_chunks_lem e xs r' t behind v' (omega (arith, shorter)) (rw (← kept) at (Spells-left s₁))
        (rw (← kept) at s₂) in
    rw (read_chunks-ok e r r' x xs done) (rw (map-append, same, rest) (sym whole), end)

-- The texts of messages, sent one behind the other and cut into chunks
-- in any way, come out of a new buffer that is large enough as the messages that were sent, in order,
-- and no byte is left behind.
pub read_chunks-text :
    (e : Bool) (size : ℕ) (xs : List Bytes) (ms : List Sent)
    → Sendable e ms
    → concat xs ≡ text ms
    → length (text ms) ≤ size
    → (map message (read_chunks e (new_ring size) xs).frames ≡ map sent ms)
      × (ending (read_chunks e (new_ring size) xs).outcome ≡ left [])
read_chunks-text e size xs ms fine cut fits =
    read_chunks_lem e xs (new_ring size) [] (map sent ms) (new_ring-IsValid size)
      (rw cut (unfold new_ring in omega (arith, fits))) (rw empty parse-nil)
      (rw (empty, cut) (text-Spells e ms fine))
  where
    empty : contents (new_ring size) ≡ []
    empty = contents-new_ring size

    parse-nil : parse e [] ≡ more
    parse-nil = unfold parse in refl

-- A command as `encode` takes it.
abbrev pub as_number : Option ℕ → Option ℤ
as_number none = none
as_number (some cmd) = some (pos cmd)

-- What `encode` makes of messages, one behind the other.
unfoldable pub encode_all : List Sent → Result Bytes
encode_all [] = ok []
encode_all ((payload, cmd) ∷ ms) = do
  b ← encode payload (as_number cmd)
  rest ← encode_all ms
  ok (b ++ rest)

encode_all-text : (ms : List Sent) → encode_all ms ≡ ok (text ms)
unfolding encode_all
encode_all-text [] = refl
encode_all-text ((p, none) ∷ ms) = rw (encode-netstring p none, encode_all-text ms) refl
encode_all-text ((p, some c) ∷ ms) = rw (encode-netstring p (some (pos c)), encode_all-text ms) refl

-- A round trip over a stream. What `encode` makes of messages that each have a command exactly if
-- commands are enabled, and a length of at most ten digits, sent one behind the other and cut into
-- chunks in any way, comes out of the read loop with a new buffer that is large enough for all of it as
-- the messages that were sent, in order, and no byte is left behind.
pub read_chunks-encode :
    (e : Bool) (size : ℕ) (xs : List Bytes) (ms : List Sent)
    → Sendable e ms
    → encode_all ms ≡ ok (concat xs)
    → length (concat xs) ≤ size
    → (map message (read_chunks e (new_ring size) xs).frames ≡ map sent ms)
      × (ending (read_chunks e (new_ring size) xs).outcome ≡ left [])
read_chunks-encode e size xs ms fine encoded fits =
    let same : concat xs ≡ text ms = cc (encoded, encode_all-text ms) in
    read_chunks-text e size xs ms fine same (rw (← same) fits)

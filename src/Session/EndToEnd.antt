-- ===== src/Session/EndToEnd.antt =====
-- What `send` of helper/WebTransportWS.js writes to a stream, read at the other end of it.
use webtransport_gos.Prelude.{
  ℕ, ◌≤◌, ◌<◌, ◌^◌, ◌≡◌, refl, ap, sym, ◌∙◌, Bool, true, false, some, List, [], ◌∷◌, ◌++◌, arith,
  length, map, All, append_assoc, length-append,
}
use webtransport_gos.Js.Bytes.{Bytes}
use webtransport_gos.Ring.{new_ring}
use webtransport_gos.NetString.Decimal.{decimal, length-decimal_le}
use webtransport_gos.NetString.Encode.{netstring, body, command_of}
use webtransport_gos.NetString.RoundTrip.{has_command}
use webtransport_gos.NetString.Stream.{message, ending, left}
use webtransport_gos.NetString.Spelling.{Sent, text, sent, Sendable}
use webtransport_gos.Reader.{read_chunks}
use webtransport_gos.Reader.Chunks.{concat, read_chunks-text}
use webtransport_gos.Session.{
  Options, Session, Effect, Outcome, write, is_stream, get_text_command, write_each, send,
}
use webtransport_gos.Session.Commands.{
  IsRange, send_lem, targets, written_to, written_to-write_each,
}

-- `send` for one message after the other.
unfoldable pub send_each : Options → List Bytes → Session → Outcome
send_each o [] s = (s, [])
send_each o (m ∷ ms) s =
    let (s', out) = send o m s in let (s'', rest) = send_each o ms s' in (s'', out ++ rest)

-- The messages with the commands that they are given.
unfoldable pub labelled : Options → List Bytes → Session → List Sent
labelled o [] s = []
labelled o (m ∷ ms) s =
    let (s', cmd) = get_text_command o s in (m, command_of (some cmd)) ∷ labelled o ms s'

written_to-append :
    (i : ℕ) (xs ys : List Effect) → written_to i (xs ++ ys) ≡ written_to i xs ++ written_to i ys
written_to-append i [] ys = refl
written_to-append i (write j b ∷ xs) ys = ground (arith, written_to-append i xs ys)
written_to-append i (Effect.on_message p b ∷ xs) ys = written_to-append i xs ys
written_to-append i (Effect.on_ping r ∷ xs) ys = written_to-append i xs ys
written_to-append i (Effect.on_close ∷ xs) ys = written_to-append i xs ys
written_to-append i (Effect.set_ping_timer t ∷ xs) ys = written_to-append i xs ys
written_to-append i (Effect.clear_ping_timer t ∷ xs) ys = written_to-append i xs ys

concat-append : (xs ys : List Bytes) → concat (xs ++ ys) ≡ concat xs ++ concat ys
concat-append [] ys = refl
concat-append (x ∷ xs) ys = rw (concat-append xs ys) (sym (append_assoc x (concat xs) (concat ys)))

-- A command leaves the rest of the object alone.
same_targets : (o : Options) (s : Session) → targets o (get_text_command o s).0 ≡ targets o s
unfolding get_text_command
same_targets o s = ground arith

same_encoder : (o : Options) (s : Session) → (get_text_command o s).0.has_encoder ≡ s.has_encoder
unfolding get_text_command
same_encoder o s = ground arith

-- The bytes that a target stream is sent spell the messages with their commands.
pub written_each :
    (o : Options) (ms : List Bytes) (s : Session) (i : ℕ)
    → is_stream o.mode ≡ false
    → s.has_encoder ≡ true
    → i < targets o s
    → concat (written_to i (send_each o ms s).1) ≡ text (labelled o ms s)
unfolding send_each labelled
written_each o [] s i h k p = refl
written_each o (m ∷ ms) s i h k p =
    let s' = (get_text_command o s).0 in
    let frame = netstring (command_of (some (get_text_command o s).1)) m in
    let out = write_each 0 (targets o s) frame in
    let now = send_lem o m s h k in
    let here = written_to-write_each i 0 (targets o s) frame in
    let ih = written_each o ms s' i h (same_encoder o s ∙ k) (omega (arith, same_targets o s)) in
    let mine : written_to i out ≡ frame ∷ [] = ground (arith, here) in
    rw (now, written_to-append i out (send_each o ms s').1, mine) (ap (λ t. frame ++ t) ih)

-- The commands that a session may give fit in ten digits.
abbrev pub IsNumbered : Options → Session → Type 0
IsNumbered o s = IsRange o s × (o.text_command_end < 10 ^ 10)

pub next-IsNumbered :
    (o : Options) (s : Session) → IsNumbered o s → IsNumbered o (get_text_command o s).0
unfolding get_text_command
next-IsNumbered o s r = ground (arith, r)

label_fits :
    (o : Options) (m : Bytes) (s : Session)
    → IsNumbered o s
    → length m < 10 ^ 9
    → let cmd = command_of (some (get_text_command o s).1) in
      (has_command cmd ≡ o.enable_command) × (length (body cmd m) < 10 ^ 10)
unfolding get_text_command body
label_fits o m s r h = go o.enable_command refl
  where
    go :
        (e : Bool)
        → o.enable_command ≡ e
        → let cmd = command_of (some (get_text_command o s).1) in
          (has_command cmd ≡ o.enable_command) × (length (body cmd m) < 10 ^ 10)
    go false e = rw e (refl, omega (arith, h))
    go true e =
        let digits = length-decimal_le 9 s.text_command_pointer (omega (arith, r)) in
        rw e
          (refl, omega (arith, h, digits, length-append (decimal s.text_command_pointer) (32 ∷ m)))

labelled-Sendable :
    (o : Options) (ms : List Bytes) (s : Session)
    → IsNumbered o s
    → All (λ m. length m < 10 ^ 9) ms
    → Sendable o.enable_command (labelled o ms s)
unfolding labelled
labelled-Sendable o [] s r h = tt
labelled-Sendable o (m ∷ ms) s r (hm, h) =
    let (e, fits) = label_fits o m s r hm in
    (e, fits, labelled-Sendable o ms (get_text_command o s).0 (next-IsNumbered o s r) h)

-- Messages below a gigabyte that are sent one after the other, in a mode other than `stream` and with a
-- text encoder, come out of the read loop of each stream that they were written to, whatever the chunks
-- are that this stream's bytes come in, if its buffer has room for them all: each once, in order, with
-- the command that it was given, and with nothing left behind.
pub send_each-read_chunks :
    (o : Options) (ms : List Bytes) (s : Session) (i size : ℕ) (chunks : List Bytes)
    → is_stream o.mode ≡ false
    → s.has_encoder ≡ true
    → IsNumbered o s
    → All (λ m. length m < 10 ^ 9) ms
    → i < targets o s
    → concat chunks ≡ concat (written_to i (send_each o ms s).1)
    → length (concat chunks) ≤ size
    → (map message (read_chunks o.enable_command (new_ring size) chunks).frames
        ≡ map sent (labelled o ms s))
      × (ending (read_chunks o.enable_command (new_ring size) chunks).outcome ≡ left [])
send_each-read_chunks o ms s i size chunks h k r small p cut fits =
    let same : concat chunks ≡ text (labelled o ms s) = cut ∙ written_each o ms s i h k p in
    read_chunks-text o.enable_command size chunks (labelled o ms s)
      (labelled-Sendable o ms s r small) same (rw (← same) fits)

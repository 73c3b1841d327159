-- ===== src/Session/Reading.antt =====
-- `read` of helper/WebTransportWS.js: one stream from its first chunk to `onclose`.
use webtransport_gos.Prelude.{
  ℕ, ◌+◌, ◌≤◌, ◌<◌, ◌^◌, ◌≡◌, refl, true, false, some, none, List, [], ◌∷◌, ◌++◌, arith, leb,
  if◌then◌else◌, length, map, All, inl, inr, Bool-cases,
}
use webtransport_gos.Js.Exn.{Result, ok, err}
use webtransport_gos.Js.Bytes.{Bytes}
use webtransport_gos.Ring.{new_ring}
use webtransport_gos.NetString.{Frame}
use webtransport_gos.NetString.Encode.{command_of}
use webtransport_gos.NetString.Stream.{message}
use webtransport_gos.NetString.Spelling.{sent}
use webtransport_gos.Reader.{read_chunks}
use webtransport_gos.Reader.Chunks.{concat}
use webtransport_gos.Session.{
  Options, Session, Effect, Outcome, on_message, on_close, is_stream, is_text, get_text_command,
}
use webtransport_gos.Session.Receive.{on_decode_message}
use webtransport_gos.Session.Commands.{targets, written_to}
use webtransport_gos.Session.EndToEnd.{
  send_each, labelled, IsNumbered, next-IsNumbered, send_each-read_chunks,
}
use webtransport_gos.Session.Delivery.{given, IsTextRange}

-- What follows a call of `onDecodeMessage`, unless it threw.
abbrev pub after : Session → Result Outcome → (Session → Outcome) → Outcome
after s (err e) later = (s, [])
after s (ok (s', out)) later = let (s'', rest) = later s' in (s'', out ++ rest)

module _ (float_of : Bytes → ℕ) (o : Options) (index : ℕ) where
  -- `onDecodeMessage` for the frames that `decode` takes off, up to the first that it throws for, which
  -- ends the loop of `read`; it throws before it changes anything. `clocks i` is the clock while the
  -- i-th frame is handled.
  unfoldable pub handle_frames : (ℕ → ℕ → ℕ) → ℕ → List Frame → Session → Outcome
  handle_frames clocks i [] s = (s, [])
  handle_frames clocks i (f ∷ fs) s =
      after s (on_decode_message float_of o (clocks i) index f s) (handle_frames clocks (i + 1) fs)

  -- `read(reader, index)`, for the chunks that the reader yields until it is done or fails: in text mode
  -- they go through the `NetString` of the stream, and otherwise to the owner.
  unfoldable pub read_stream : (ℕ → ℕ → ℕ) → ℕ → List Bytes → Session → Outcome
  unfolding handle_frames
  read_stream clocks buffer_size chunks s =
      if is_text o.mode
      then (let (s', out) =
            handle_frames clocks 0
              (read_chunks o.enable_command (new_ring buffer_size) chunks).frames s in
          (s', out ++ on_close ∷ []))
      else (s, map (λ value. on_message (some value) true) chunks ++ on_close ∷ [])

  -- Over a single stream a text message, with a command or without, goes to the owner.
  handle_message :
      (clock : ℕ → ℕ) (f : Frame) (m : Bytes) (s r : Session)
      → leb o.stream_count 1 ≡ true
      → IsTextRange o
      → IsNumbered o s
      → f.payload ≡ some m
      → f.cmd ≡ command_of (some (get_text_command o s).1)
      → on_decode_message float_of o clock index f r ≡ ok (r, given r m ∷ [])
  unfolding on_decode_message get_text_command
  handle_message clock f m s r single range num p c = elim (Bool-cases o.enable_command) [
    | inl e ↦
        let cmd : f.cmd ≡ some s.text_command_pointer = rw e at c in
        rw (cmd, p) (ground (arith, single, range, num))
    | inr e ↦ let cmd : f.cmd ≡ none = rw e at c in rw (cmd, p) (ground (arith, cmd))
  ]

  handle_frames-message :
      (clocks : ℕ → ℕ → ℕ) (i : ℕ) (f : Frame) (fs : List Frame) (s s' : Session) (e : Effect)
      (rest : List Effect)
      → on_decode_message float_of o (clocks i) index f s ≡ ok (s, e ∷ [])
      → handle_frames clocks (i + 1) fs s ≡ (s', rest)
      → handle_frames clocks i (f ∷ fs) s ≡ (s', e ∷ rest)
  unfolding handle_frames
  handle_frames-message clocks i f fs s s' e rest now later = rw (now, later) refl

  handle_frames-labelled :
      (clocks : ℕ → ℕ → ℕ) (i : ℕ) (fs : List Frame) (ms : List Bytes) (s r : Session)
      → leb o.stream_count 1 ≡ true
      → IsTextRange o
      → IsNumbered o s
      → map message fs ≡ map sent (labelled o ms s)
      → handle_frames clocks i fs r ≡ (r, map (given r) ms)
  unfolding labelled
  handle_frames-labelled clocks i [] [] s r single range num e = unfold handle_frames in refl
  handle_frames-labelled clocks i [] (m ∷ ms) s r single range num e = cc
  handle_frames-labelled clocks i (f ∷ fs) [] s r single range num e = cc
  handle_frames-labelled clocks i (f ∷ fs) (m ∷ ms) s r single range num e =
      handle_frames-message clocks i f fs r r (given r m) (map (given r) ms)
        (handle_message (clocks i) f m s r single range num (cc e) (cc e))
        (handle_frames-labelled clocks (i + 1) fs ms (get_text_command o s).0 r single range
          (next-IsNumbered o s num) (cc e))

  -- Text messages below a gigabyte that are sent one after the other over a single stream in text mode,
  -- with a text encoder and with a range of commands that is apart from those of pings and of binary
  -- messages, commands being enabled or not: the reader of that stream, however its bytes are cut into
  -- chunks that its buffer has room for, gives the owner each message once and in order, then calls
  -- `onclose`, and leaves its object as it was.
  pub read_stream-send_each :
      (clocks : ℕ → ℕ → ℕ) (ms : List Bytes) (s r : Session) (size : ℕ) (chunks : List Bytes)
      → is_text o.mode ≡ true
      → leb o.stream_count 1 ≡ true
      → s.has_encoder ≡ true
      → IsTextRange o
      → IsNumbered o s
      → All (λ m. length m < 10 ^ 9) ms
      → index < targets o s
      → concat chunks ≡ concat (written_to index (send_each o ms s).1)
      → length (concat chunks) ≤ size
      → read_stream clocks size chunks r ≡ (r, map (given r) ms ++ on_close ∷ [])
  unfolding read_stream
  read_stream-send_each clocks ms s r size chunks mode single enc range num small p cut fits =
      let no_stream : is_stream o.mode ≡ false = ground (arith, mode) in
      let arrived =
        (send_each-read_chunks o ms s index size chunks no_stream enc num small p cut fits).0 in
      let all =
        handle_frames-labelled clocks 0 (read_chunks o.enable_command (new_ring size) chunks).frames
          ms s r single range num arrived in
      rw (mode, all) refl

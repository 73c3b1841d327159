-- ===== src/Session/Delivery.antt =====
-- Both ends of helper/WebTransportWS.js over several streams: `send` on one side, the read loops and
-- `onDecodeMessage` on the other.
use webtransport_gos.Prelude.{
  ℕ, zero, suc, ◌+◌, ◌-◌, ◌≤◌, ◌<◌, ◌^◌, ◌≡◌, refl, ap, sym, ◌∙◌, true, false, not, Option, some,
  none, List, [], ◌∷◌, ◌++◌, arith, ◌==◌, length, map, take, All, get_elem?, if◌then◌else◌,
  Bool-cases, inl, inr,
}
use webtransport_gos.Prelude.Int.{pos}
use webtransport_gos.Js.Exn.{ok}
use webtransport_gos.Js.Bytes.{Bytes}
use webtransport_gos.Ring.{new_ring}
use webtransport_gos.NetString.{Frame}
use webtransport_gos.NetString.Stream.{message}
use webtransport_gos.NetString.Spelling.{Sent, sent}
use webtransport_gos.Reader.{read_chunks}
use webtransport_gos.Reader.Chunks.{concat}
use webtransport_gos.Session.{
  Options, Session, Effect, on_message, is_stream, is_text, get_text_command, has_key,
}
use webtransport_gos.Session.Receive.{message_of}
use webtransport_gos.Session.Commands.{
  after_commands, command_at, commands_differ, command_is_pointer, targets, written_to,
}
use webtransport_gos.Session.Dedup.{
  Arrival, handle_all, handle_all_lem, first_copies, key, frames, all_messages, all_since, Within,
}
use webtransport_gos.Session.Order.{Distinct, Arrives, silent, arrive, advance, first_copies-take}
use webtransport_gos.Session.EndToEnd.{
  send_each, labelled, IsNumbered, next-IsNumbered, send_each-read_chunks,
}

-- The frames that the loop of `read` decodes of the chunks of a stream: in the other modes the chunks go
-- to the owner as they are.
unfoldable pub frames_read : Options → ℕ → List Bytes → List Frame
frames_read o size chunks =
    if is_text o.mode then (read_chunks o.enable_command (new_ring size) chunks).frames else []

frames_read_text :
    (o : Options) (size : ℕ) (chunks : List Bytes)
    → is_text o.mode ≡ true
    → frames_read o size chunks ≡ (read_chunks o.enable_command (new_ring size) chunks).frames
unfolding frames_read
frames_read_text o size chunks mode = rw mode refl

-- A frame without its `serialized`, which no owner is given.
abbrev bare : Frame → Frame
bare f = record f { serialized = [] }

abbrev frame_of : Sent → Frame
frame_of (m, c) = record { payload = some m; serialized = []; cmd = c }

same_frames :
    (xs : List Frame) (ls : List Sent) (j : ℕ) (f : Frame)
    → map message xs ≡ map sent ls
    → get_elem? xs j ≡ some f
    → get_elem? (map frame_of ls) j ≡ some (bare f)
same_frames [] ls j f e h = cc
same_frames (x ∷ xs) [] j f e h = cc
same_frames (x ∷ xs) (l ∷ ls) zero f e h = cc (e, h)
same_frames (x ∷ xs) (l ∷ ls) (suc j) f e h = same_frames xs ls j f (cc e) h

-- The j-th message and its command.
label_at :
    (o : Options) (ms : List Bytes) (s : Session) (j : ℕ) (f : Frame)
    → o.enable_command ≡ true
    → IsNumbered o s
    → get_elem? (map frame_of (labelled o ms s)) j ≡ some f
    → (k : ℕ) × (f.cmd ≡ some k)
      × (command_at o j s ≡ pos k)
      × (o.text_command_start ≤ k)
      × (k ≤ o.text_command_end)
      × (j < length ms)
unfolding labelled after_commands
label_at o [] s j f e r h = cc
label_at o (m ∷ ms) s zero f e r h = (
  s.text_command_pointer,
  cc (command_is_pointer o s e, h),
  command_is_pointer o s e,
  r.0.0,
  r.0.1,
  omega arith,
)
label_at o (m ∷ ms) s (suc j) f e r h =
    let (k, c, at, low, high, inside) =
      label_at o ms (get_text_command o s).0 j f e (next-IsNumbered o s r) h in
    (k, c, at, low, high, omega (arith, inside))

-- What the owner is given of a text message.
abbrev pub given : Session → Bytes → Effect
given r m = on_message (some m) (not r.has_decoder)

given-labelled :
    (o : Options) (r : Session) (n : ℕ) (ms : List Bytes) (s : Session)
    → o.enable_command ≡ true
    → o.binary_command < o.text_command_start
    → IsNumbered o s
    → map (message_of o r) (take n (map frame_of (labelled o ms s))) ≡ map (given r) (take n ms)
unfolding labelled
given-labelled o r zero ms s e b h = refl
given-labelled o r (suc n) [] s e b h = refl
given-labelled o r (suc n) (m ∷ ms) s e b h =
    let later = given-labelled o r n ms (get_text_command o s).0 e b (next-IsNumbered o s h) in
    let cmd = command_is_pointer o s e in
    let other : (s.text_command_pointer == o.binary_command) ≡ false = ground (arith, h) in
    rw (cmd, later, other) refl

-- The commands of text messages are those of no ping and of no binary message.
abbrev pub IsTextRange : Options → Type 0
IsTextRange o =
    (o.ping_command < o.text_command_start)
    × (o.server_ping_command < o.text_command_start)
    × (o.binary_command < o.text_command_start)

module _ (float_of : Bytes → ℕ) (o : Options) where
  -- Frames that come over the first `n` streams, of which the i-th carries `carried i` in order.
  pub data Interleaves (n : ℕ) (carried : ℕ → List Frame)
      : (ℕ → ℕ) → List Frame → (ℕ → ℕ) → Type 0 where
    rest : {at : ℕ → ℕ} → Interleaves n carried at [] at
    comes :
        {at end : ℕ → ℕ} {f : Frame} {later : List Frame} (i : ℕ)
        → i < n
        → get_elem? (carried i) (at i) ≡ some f
        → Interleaves n carried (advance float_of o i at) later end
        → Interleaves n carried at (f ∷ later) end

  Interleaves-Arrives :
      (n : ℕ) (carried : ℕ → List Frame) (ls : List Sent) (at end : ℕ → ℕ) (arrived : List Frame)
      → ((i : ℕ) → i < n → map message (carried i) ≡ map sent ls)
      → Interleaves n carried at arrived end
      → Arrives float_of o (map frame_of ls) at (map bare arrived) end
  Interleaves-Arrives n carried ls at end [] h rest = silent
  Interleaves-Arrives n carried ls at end (f ∷ later) h (comes i p e s) =
      arrive i (same_frames (carried i) ls (at i) f (h i p) e)
        (Interleaves-Arrives n carried ls (advance float_of o i at) end later h s)

  all_messages-Interleaves :
      (n : ℕ) (carried : ℕ → List Frame) (ms : List Bytes) (s : Session) (at end : ℕ → ℕ)
      (arrived : List Frame)
      → o.enable_command ≡ true
      → IsTextRange o
      → IsNumbered o s
      → ((i : ℕ) → i < n → map message (carried i) ≡ map sent (labelled o ms s))
      → Interleaves n carried at arrived end
      → all_messages float_of o arrived ≡ true
  all_messages-Interleaves n carried ms s at end [] e b r h rest = refl
  all_messages-Interleaves n carried ms s at end (f ∷ later) e b r h (comes i p found more) =
      let found' = same_frames (carried i) (labelled o ms s) (at i) f (h i p) found in
      let (k, c, _, low, high, _) = label_at o ms s (at i) (bare f) e r found' in
      let others =
        all_messages-Interleaves n carried ms s (advance float_of o i at) end later e b r h more in
      rw (c, others) (ground (arith, low, high, b))

  labelled-Distinct :
      (ms : List Bytes) (s : Session)
      → o.enable_command ≡ true
      → IsNumbered o s
      → length ms ≤ o.text_command_end + 1 - o.text_command_start
      → Distinct float_of o (map frame_of (labelled o ms s))
  labelled-Distinct ms s e r few i j f g hi hj same =
      let (k, c, at_i, _, _, in_i) = label_at o ms s i f e r hi in
      let (l, d, at_j, _, _, in_j) = label_at o ms s j g e r hj in
      let equal : k ≡ l = sym (ap (key_of) c) ∙ same ∙ ap key_of d in
      commands_differ o i j s e r.0 (omega (arith, in_i, few)) (omega (arith, in_j, few))
        (at_i ∙ ap pos equal ∙ sym at_j)
    where
      key_of : Option ℕ → ℕ
      key_of none = 0
      key_of (some cmd) = cmd

  first_copies-bare :
      (r : Session) (seen : List ℕ) (fs : List Frame)
      → map (message_of o r) (first_copies float_of o seen fs)
        ≡ map (message_of o r) (first_copies float_of o seen (map bare fs))
  first_copies-bare r seen [] = refl
  first_copies-bare r seen (f ∷ fs) = elim (Bool-cases (has_key seen (key float_of o f))) [
    | inl old ↦ rw old (first_copies-bare r seen fs)
    | inr new ↦
        rw new (
          ap (λ ms. message_of o r f ∷ ms) (first_copies-bare r (seen ++ key float_of o f ∷ []) fs))
  ]

  -- Text messages below a gigabyte, no more than there are commands, that are sent one after the other
  -- over several streams, in text mode, with a text encoder and with a range of commands that is apart
  -- from those of pings and of binary messages, where a stream is no longer than its buffer: however the
  -- bytes of each stream are cut into chunks, however the frames of the streams interleave, and
  -- wherever each of the streams ends, a new receiver with the same options gives its owner the first so
  -- many of the messages, each once and in order, as far as the furthest stream has come, while every
  -- reading of the clock is within the timeout of one time.
  pub delivered_in_order :
      (ms : List Bytes) (s r : Session) (size : ℕ) (chunks : ℕ → List Bytes) (end : ℕ → ℕ)
      (arrivals : List Arrival) (t : ℕ)
      → is_text o.mode ≡ true
      → s.has_encoder ≡ true
      → o.enable_command ≡ true
      → 1 < o.stream_count
      → IsTextRange o
      → IsNumbered o s
      → length ms ≤ o.text_command_end + 1 - o.text_command_start
      → All (λ m. length m < 10 ^ 9) ms
      → r.command_map ≡ []
      → r.command_queue ≡ []
      → ((i : ℕ)
          → i < targets o s
          → (concat (chunks i) ≡ concat (written_to i (send_each o ms s).1))
            × (length (concat (chunks i)) ≤ size))
      → Interleaves
          (targets o s)
          (λ i. frames_read o size (chunks i))
          (λ i. 0)
          (frames float_of o arrivals)
          end
      → Within float_of o t arrivals
      → (n : ℕ) × (r' : Session) × (handle_all float_of o arrivals r
          ≡ ok (r', map (given r) (take n ms)))
        × ((i : ℕ) → end i ≤ n)
  delivered_in_order ms s r size chunks end arrivals t mode enc e several b num few small fresh idle
        wire mixed within =
      let ls = labelled o ms s in
      let carried : ℕ → List Frame = λ i. frames_read o size (chunks i) in
      let no_stream : is_stream o.mode ≡ false = ground (arith, mode) in
      let same : (i : ℕ) → i < targets o s → map message (carried i) ≡ map sent ls = λ i p.
        ap (map message) (frames_read_text o size (chunks i) mode)
        ∙ (send_each-read_chunks o ms s i size (chunks i) no_stream enc num small p (wire i p).0
            (wire i p).1).0 in
      let all = all_messages-Interleaves _ carried ms s _ end _ e b num same mixed in
      let (r', run) =
        handle_all_lem float_of o arrivals t r several all (ap (all_since t) idle) within in
      let (n, first, far) =
        first_copies-take float_of o (map frame_of ls) (λ i. 0) end 0
          (map bare (frames float_of o arrivals)) (labelled-Distinct ms s e num few)
          (Interleaves-Arrives _ carried ls (λ i. 0) end _ same mixed) (λ i. omega arith) in
      let out : map (message_of o r)
            (first_copies float_of o r.command_map (frames float_of o arrivals))
          ≡ map (given r) (take n ms) =
        rw fresh (first_copies-bare r [] (frames float_of o arrivals))
        ∙ ap (map (message_of o r)) first
        ∙ given-labelled o r n ms s e b.2 num in
      (n, r', run ∙ ap (λ es. ok (r', es)) out, far)

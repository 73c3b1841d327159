-- ===== src/Session/Dedup.antt =====
-- What `onDecodeMessage` of helper/WebTransportWS.js does with the copies of a message that come over
-- several streams.
use webtransport_gos.Prelude.{
  ℕ, ◌+◌, ◌≤◌, ◌<◌, ◌≡◌, refl, ap, ◌∙◌, Bool, true, false, ◌||◌, ◌&&◌, not, some, none, List, [],
  ◌∷◌, arith, leb, ◌==◌, if◌then◌else◌, map, ◌++◌, Bool-cases, inl, inr,
}
use webtransport_gos.Js.Exn.{Result, ok, ◌>>=◌}
use webtransport_gos.Js.Bytes.{Bytes}
use webtransport_gos.NetString.{Frame}
use webtransport_gos.Session.{Options, Session, Effect, Command, Outcome, has_key}
use webtransport_gos.Session.Receive.{
  message_of, receive_command, on_decode_message, expire, is_command,
}

-- A frame with its stream, and the clock while it is handled.
pub record Arrival : Type 0 where
  pub clock : ℕ → ℕ
  pub index : ℕ
  pub frame : Frame

-- Every entry is from `t` on.
abbrev pub all_since : ℕ → List Command → Bool
all_since t [] = true
all_since t (c ∷ cs) = leb t c.timestamp && all_since t cs

all_since-snoc :
    (t : ℕ) (cs : List Command) (c : Command)
    → all_since t cs ≡ true
    → t ≤ c.timestamp
    → all_since t (cs ++ c ∷ []) ≡ true
all_since-snoc t [] c h k = ground arith
all_since-snoc t (d ∷ cs) c h k = ground (arith, all_since-snoc t cs c)

expire_nothing :
    (clock : ℕ → ℕ) (k timeout t : ℕ) (keys : List ℕ) (cs : List Command)
    → all_since t cs ≡ true
    → clock k ≤ t + timeout
    → expire clock k timeout keys cs ≡ (keys, cs)
expire_nothing clock k timeout t keys [] h p = refl
expire_nothing clock k timeout t keys (c ∷ cs) h p = ground arith

receive_known :
    (o : Options) (clock : ℕ → ℕ) (cmd : ℕ) (f : Frame) (s : Session)
    → has_key s.command_map cmd ≡ true
    → receive_command o clock cmd f s ≡ (s, [])
unfolding receive_command
receive_known o clock cmd f s h = rw h refl

module _ (float_of : Bytes → ℕ) (o : Options) where
  -- A frame that several streams may carry: a text or binary message, and no ping.
  abbrev pub is_message : Frame → Bool
  is_message f = elim f.cmd [
    | none ↦ false
    | some cmd ↦
        not (((cmd == o.ping_command) || (cmd == o.server_ping_command)) && o.enable_ping)
        && ((leb o.text_command_start cmd && leb cmd o.text_command_end)
            || (cmd == o.binary_command))
  ]

  abbrev pub key : Frame → ℕ
  key f = elim f.cmd [ none ↦ 0 | some cmd ↦ cmd ]

  pub on_decode_message-command :
      (clock : ℕ → ℕ) (index : ℕ) (f : Frame) (s : Session)
      → is_message f ≡ true
      → 1 < o.stream_count
      → on_decode_message float_of o clock index f s ≡ ok (receive_command o clock (key f) f s)
  unfolding on_decode_message
  on_decode_message-command clock index f s h several = ground arith

  -- `onDecodeMessage` for one frame after the other.
  pub handle_all : List Arrival → Session → Result Outcome
  handle_all [] s = ok (s, [])
  handle_all (a ∷ arrivals) s = do
    (s', out) ← on_decode_message float_of o a.clock a.index a.frame s
    (s'', rest) ← handle_all arrivals s'
    ok (s'', out ++ rest)

  abbrev pub frames : List Arrival → List Frame
  frames [] = []
  frames (a ∷ arrivals) = a.frame ∷ frames arrivals

  abbrev pub all_messages : List Frame → Bool
  all_messages [] = true
  all_messages (f ∷ fs) = is_message f && all_messages fs

  abbrev pub all_binary : List Frame → Bool
  all_binary [] = true
  all_binary (f ∷ fs) = is_command f.cmd o.binary_command && all_binary fs

  -- The first copy of each message whose command is not among those seen.
  abbrev pub first_copies : List ℕ → List Frame → List Frame
  first_copies seen [] = []
  first_copies seen (f ∷ fs) =
      if has_key seen (key f)
      then first_copies seen fs
      else f ∷ first_copies (seen ++ key f ∷ []) fs

  -- Every reading of the clock is from `t` on and within the timeout.
  abbrev pub Within : ℕ → List Arrival → Type 0
  Within t [] = ◌≡◌ {A = ℕ} 0 0
  Within t (a ∷ arrivals) =
      ((k : ℕ) → (t ≤ a.clock k) × (a.clock k ≤ t + o.command_timeout)) × Within t arrivals

  -- What a message does while no command is too old.
  receive_fresh :
      (clock : ℕ → ℕ) (f : Frame) (t : ℕ) (s : Session)
      → all_since t s.command_queue ≡ true
      → ((k : ℕ) → (t ≤ clock k) × (clock k ≤ t + o.command_timeout))
      → receive_command o clock (key f) f s ≡ (
          if has_key s.command_map (key f) then (s, []) else (
            record s {
              command_map = s.command_map ++ key f ∷ [];
              command_queue = s.command_queue ++ record { cmd = key f; timestamp = clock 0 } ∷ [];
            },
            message_of o s f ∷ [],
          ))
  unfolding receive_command
  receive_fresh clock f t s since within =
      let c : Command = record { cmd = key f; timestamp = clock 0 } in
      let longer = all_since-snoc t s.command_queue c since (within 0).0 in
      let stays =
        expire_nothing clock 1 o.command_timeout t (s.command_map ++ key f ∷ [])
          (s.command_queue ++ c ∷ []) longer (within 1).1 in
      ground (arith, stays)

  handle_all-step :
      (a : Arrival) (arrivals : List Arrival) (s s₁ s₂ : Session) (out rest : List Effect)
      → on_decode_message float_of o a.clock a.index a.frame s ≡ ok (s₁, out)
      → handle_all arrivals s₁ ≡ ok (s₂, rest)
      → handle_all (a ∷ arrivals) s ≡ ok (s₂, out ++ rest)
  unfolding handle_all
  handle_all-step a arrivals s s₁ s₂ out rest e₁ e₂ = rw (e₁, e₂) refl

  -- Over several streams, while every reading of the clock is within the timeout of a time from
  -- which on all commands were remembered: the owner is given the first copy of each message whose
  -- command is not remembered, in the order of arrival, and nothing else.
  pub handle_all_lem :
      (arrivals : List Arrival) (t : ℕ) (s : Session)
      → 1 < o.stream_count
      → all_messages (frames arrivals) ≡ true
      → all_since t s.command_queue ≡ true
      → Within t arrivals
      → (s' : Session) × (handle_all arrivals s
          ≡ ok (s', map (message_of o s) (first_copies s.command_map (frames arrivals))))
  unfolding handle_all
  handle_all_lem [] t s several all since within = (s, refl)
  handle_all_lem (a ∷ arrivals) t s several all since within =
      let good : is_message a.frame ≡ true = ground arith in
      let others : all_messages (frames arrivals) ≡ true = ground arith in
      let step =
        on_decode_message-command a.clock a.index a.frame s good several
        ∙ ap ok (receive_fresh a.clock a.frame t s since within.0) in
      elim (Bool-cases (has_key s.command_map (key a.frame))) [
        | inl old ↦
            let (s', e) = handle_all_lem arrivals t s several others since within.1 in
            (s', handle_all-step a arrivals s s s' [] _ (rw old at step) e ∙ rw old refl)
        | inr new ↦
            let c : Command = record { cmd = key a.frame; timestamp = a.clock 0 } in
            let s₁ = record s {
              command_map = s.command_map ++ key a.frame ∷ [];
              command_queue = s.command_queue ++ c ∷ [];
            } in
            let (s', e) =
              handle_all_lem arrivals t s₁ several others
                (all_since-snoc t s.command_queue c since (within.0 0).0) within.1 in
            (
              s',
              handle_all-step a arrivals s s₁ s' (message_of o s a.frame ∷ []) _ (rw new at step) e
                  ∙ rw new refl,
            )
      ]

  -- Over several streams, when the command of binary messages is remembered: of frames that are all
  -- binary messages none is given to the owner and nothing changes, however much time passes.
  pub binary_only_once :
      (arrivals : List Arrival) (s : Session)
      → 1 < o.stream_count
      → all_messages (frames arrivals) ≡ true
      → all_binary (frames arrivals) ≡ true
      → has_key s.command_map o.binary_command ≡ true
      → handle_all arrivals s ≡ ok (s, [])
  unfolding handle_all
  binary_only_once [] s several all binary seen = refl
  binary_only_once (a ∷ arrivals) s several all binary seen =
      let step = on_decode_message-command a.clock a.index a.frame s (ground arith) several in
      let rest = binary_only_once arrivals s several (ground arith) (ground arith) seen in
      let same : key a.frame ≡ o.binary_command = ground arith in
      let dropped : receive_command o a.clock (key a.frame) a.frame s ≡ (s, []) =
        receive_known o a.clock (key a.frame) a.frame s (rw (← same) at seen) in
      handle_all-step a arrivals s s s [] [] (step ∙ ap ok dropped) rest

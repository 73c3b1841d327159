-- ===== src/Session/Kept.antt =====
-- `commandMap` and `commandQueue` of helper/WebTransportWS.js hold the same commands.
use webtransport_gos.Prelude.{
  ℕ, ◌+◌, ◌≡◌, refl, ap, sym, ◌∙◌, ◌||◌, ◌&&◌, Option, some, none, List, [], ◌∷◌, arith, ltb, leb,
  ◌==◌, if◌then◌else◌, map, ◌++◌, Bool-cases, inl, inr,
}
use webtransport_gos.Js.Exn.{Result, ok, err}
use webtransport_gos.Js.Bytes.{Bytes}
use webtransport_gos.NetString.{Frame}
use webtransport_gos.Session.{Options, Session, Command, Outcome, has_key}
use webtransport_gos.Session.Receive.{
  message_of, receive_command, on_decode_message, expire, first_float, receive_pong,
}

-- The commands that are remembered are those of the queue.
abbrev pub IsKept : Session → Type 0
IsKept s = s.command_map ≡ map (λ (c : Command). c.cmd) s.command_queue

expire-keys :
    (clock : ℕ → ℕ) (k timeout : ℕ) (queue : List Command)
    → (expire clock k timeout (map (λ (c : Command). c.cmd) queue) queue).0
      ≡ map
          (λ (c : Command). c.cmd)
          (expire clock k timeout (map (λ (c : Command). c.cmd) queue) queue).1
expire-keys clock k timeout [] = refl
expire-keys clock k timeout (c ∷ cs) = ground (arith, expire-keys clock (k + 1) timeout cs)

map-snoc :
    (queue : List Command) (c : Command)
    → map (λ (c : Command). c.cmd) (queue ++ c ∷ [])
      ≡ map (λ (c : Command). c.cmd) queue ++ c.cmd ∷ []
map-snoc [] c = refl
map-snoc (d ∷ queue) c = ap (λ xs. d.cmd ∷ xs) (map-snoc queue c)

pub receive_command-IsKept :
    (o : Options) (clock : ℕ → ℕ) (cmd : ℕ) (f : Frame) (s : Session)
    → IsKept s
    → IsKept (receive_command o clock cmd f s).0
unfolding receive_command
receive_command-IsKept o clock cmd f s h = elim (Bool-cases (has_key s.command_map cmd)) [
  | inl old ↦ rw old h
  | inr new ↦
      let c : Command = record { cmd = cmd; timestamp = clock 0 } in
      let keys = expire-keys clock 1 o.command_timeout (s.command_queue ++ c ∷ []) in
      rw new (rw (h, ← map-snoc s.command_queue c) keys)
]

receive_pong-keeps :
    (clock : ℕ → ℕ) (sent : Option ℕ) (s : Session)
    → ((receive_pong clock sent s).0.command_map ≡ s.command_map)
      × ((receive_pong clock sent s).0.command_queue ≡ s.command_queue)
unfolding receive_pong
receive_pong-keeps clock none s = (refl, refl)
receive_pong-keeps clock (some sent) s = (ground arith, ground arith)

receive_pong-IsKept :
    (clock : ℕ → ℕ) (sent : Option ℕ) (s : Session)
    → IsKept s
    → IsKept (receive_pong clock sent s).0
receive_pong-IsKept clock sent s h =
    let (m, q) = receive_pong-keeps clock sent s in
    m ∙ (h ∙ ap (map (λ (c : Command). c.cmd)) (sym q))

-- A handler that throws leaves no new object.
abbrev pub Keeps : Result Outcome → Type 0
Keeps (ok r) = IsKept r.0
Keeps (err e) = ◌≡◌ {A = ℕ} 0 0

module _ (float_of : Bytes → ℕ) (o : Options) where
  -- The commands that are remembered stay those of the queue, whatever frame comes.
  pub on_decode_message-IsKept :
      (clock : ℕ → ℕ) (index : ℕ) (f : Frame) (s : Session)
      → IsKept s
      → Keeps (on_decode_message float_of o clock index f s)
  unfolding on_decode_message
  on_decode_message-IsKept clock index f s h =
      ground (arith, pong (first_float float_of f.payload), command f.cmd, h)
    where
      pong :
          (m : Result (Option ℕ))
          → Keeps (elim m [ ok sent ↦ ok (receive_pong clock sent s) | err e ↦ err e ])
      pong (ok sent) = receive_pong-IsKept clock sent s h
      pong (err e) = refl

      command :
          (c : Option ℕ)
          → Keeps (elim c [
            | none ↦ ok (s, message_of o s f ∷ [])
            | some cmd ↦
                if (leb o.text_command_start cmd && leb cmd o.text_command_end)
                  || (cmd == o.binary_command)
                then (if ltb 1 o.stream_count
                    then ok (receive_command o clock cmd f s)
                    else ok (s, message_of o s f ∷ []))
                else ok (s, [])
          ])
      command none = h
      command (some cmd) = ground (arith, receive_command-IsKept o clock cmd f s h, h)

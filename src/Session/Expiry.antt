-- ===== src/Session/Expiry.antt =====
-- How `onDecodeMessage` of helper/WebTransportWS.js forgets the commands that are older than
-- `commandTimeout`.
use webtransport_gos.Prelude.{
  ℕ, ◌+◌, ◌-◌, ◌<◌, ◌≤◌, ◌≡◌, refl, ap, ◌∙◌, Bool, true, false, ◌&&◌, List, [], ◌∷◌, arith, leb,
  map, ◌++◌, if◌then◌else◌,
}
use webtransport_gos.Js.Exn.{ok}
use webtransport_gos.Js.Bytes.{Bytes}
use webtransport_gos.NetString.{Frame}
use webtransport_gos.Session.{Options, Session, Command, has_key, delete_key}
use webtransport_gos.Session.Receive.{message_of, receive_command, on_decode_message, expire}
use webtransport_gos.Session.Kept.{IsKept, receive_command-IsKept}
use webtransport_gos.Session.Dedup.{is_message, key, on_decode_message-command}

-- The commands that are not older than the timeout.
abbrev pub young : ℕ → ℕ → List Command → List Command
young now timeout [] = []
young now timeout (c ∷ cs) =
    let rest = young now timeout cs in if leb (now - c.timestamp) timeout then c ∷ rest else rest

-- Each command came no earlier than the one before, the first at `t` or later, and none after `now`.
abbrev pub is_ascending : ℕ → ℕ → List Command → Bool
is_ascending t now [] = leb t now
is_ascending t now (c ∷ cs) = leb t c.timestamp && is_ascending c.timestamp now cs

young_all :
    (now timeout t : ℕ) (cs : List Command)
    → is_ascending t now cs ≡ true
    → now - t ≤ timeout
    → young now timeout cs ≡ cs
young_all now timeout t [] h p = refl
young_all now timeout t (c ∷ cs) h p = ground (arith, young_all now timeout c.timestamp cs)

expire-young :
    (now k timeout t : ℕ) (keys : List ℕ) (cs : List Command)
    → is_ascending t now cs ≡ true
    → (expire (λ i. now) k timeout keys cs).1 ≡ young now timeout cs
expire-young now k timeout t keys [] h = refl
expire-young now k timeout t keys (c ∷ cs) h = ground (
  arith,
  expire-young now (k + 1) timeout c.timestamp (delete_key keys c.cmd) cs,
  young_all now timeout c.timestamp cs,
)

is_ascending-snoc :
    (now t cmd : ℕ) (cs : List Command)
    → is_ascending t now cs ≡ true
    → is_ascending t now (cs ++ record { cmd = cmd; timestamp = now } ∷ []) ≡ true
is_ascending-snoc now t cmd [] h = ground arith
is_ascending-snoc now t cmd (c ∷ cs) h = ground (arith, is_ascending-snoc now c.timestamp cmd cs)

young-snoc :
    (now timeout cmd : ℕ) (cs : List Command)
    → young now timeout (cs ++ record { cmd = cmd; timestamp = now } ∷ [])
      ≡ young now timeout cs ++ record { cmd = cmd; timestamp = now } ∷ []
young-snoc now timeout cmd [] = ground arith
young-snoc now timeout cmd (c ∷ cs) = ground (arith, young-snoc now timeout cmd cs)

receive_command-forgets :
    (o : Options) (now t cmd : ℕ) (f : Frame) (s : Session)
    → is_ascending t now s.command_queue ≡ true
    → has_key s.command_map cmd ≡ false
    → ((receive_command o (λ i. now) cmd f s).0.command_queue
        ≡ young now o.command_timeout s.command_queue ++ record { cmd = cmd; timestamp = now } ∷ [])
      × ((receive_command o (λ i. now) cmd f s).1 ≡ message_of o s f ∷ [])
unfolding receive_command
receive_command-forgets o now t cmd f s h new =
    let c : Command = record { cmd = cmd; timestamp = now } in
    let left =
      expire-young now 1 o.command_timeout t (s.command_map ++ cmd ∷ []) (s.command_queue ++ c ∷ [])
        (is_ascending-snoc now t cmd s.command_queue h)
      ∙ young-snoc now o.command_timeout cmd s.command_queue in
    (rw new left, rw new refl)

module _ (float_of : Bytes → ℕ) (o : Options) where
  -- Over several streams, when the commands that are remembered came one after the other and the clock
  -- stands still during the call: a message whose command is not remembered is given to the owner; after
  -- it the commands that are remembered, in the queue and in the map, are those of before that are not
  -- older than the timeout, in order, and that of the message.
  pub on_decode_message_forgets :
      (now t index : ℕ) (f : Frame) (s : Session)
      → 1 < o.stream_count
      → is_message float_of o f ≡ true
      → IsKept s
      → is_ascending t now s.command_queue ≡ true
      → has_key s.command_map (key float_of o f) ≡ false
      → let left =
          young now o.command_timeout s.command_queue
          ++ record { cmd = key float_of o f; timestamp = now } ∷ [] in
        (s' : Session) × (on_decode_message float_of o (λ i. now) index f s
          ≡ ok (s', message_of o s f ∷ []))
        × (s'.command_queue ≡ left)
        × (s'.command_map ≡ map (λ (c : Command). c.cmd) left)
  on_decode_message_forgets now t index f s several good kept h new =
      let (queue, out) = receive_command-forgets o now t (key float_of o f) f s h new in
      let run = on_decode_message-command float_of o (λ i. now) index f s good several in
      let same = receive_command-IsKept o (λ i. now) (key float_of o f) f s kept in
      (
        (receive_command o (λ i. now) (key float_of o f) f s).0,
        run ∙ ap (λ x. ok ((receive_command o (λ i. now) (key float_of o f) f s).0, x)) out,
        queue,
        same ∙ ap (map (λ (c : Command). c.cmd)) queue,
      )

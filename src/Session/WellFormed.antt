-- ===== src/Session/WellFormed.antt =====
-- What stays true of the object of helper/WebTransportWS.js.
use webtransport_gos.Prelude.{
  ℕ, ◌+◌, ◌≤◌, ◌≡◌, refl, Bool, true, false, not, Option, none, some, List, [], ◌∷◌, ◌++◌, arith,
  ltb, leb, ◌==◌, ◌&&◌, ◌||◌, if◌then◌else◌,
}
use webtransport_gos.Prelude.Int.{pos}
use webtransport_gos.Js.Exn.{Result, ok, err}
use webtransport_gos.Js.Bytes.{Bytes}
use webtransport_gos.NetString.{Frame}
use webtransport_gos.NetString.Encode.{encode}
use webtransport_gos.Session.{
  Options, Session, Command, Effect, Outcome, has_key, add_key, delete_key, new_session, add_stream,
  start_reading, get_text_command, set_current_write_streams, send, send_binary, set_ping_timer,
  write,
}
use webtransport_gos.Session.Commands.{IsRange}
use webtransport_gos.Session.Kept.{IsKept, Keeps, on_decode_message-IsKept}
use webtransport_gos.Session.Receive.{
  ping, ping_timeout, on_decode_message, receive_command, receive_pong, first_float, message_of,
  expire,
}
use webtransport_gos.Session.Traces.{
  Action, to_add_stream, to_start_reading, to_choose, to_send, to_send_binary, to_ping, to_time_out,
  to_receive, perform, run, Holds, run-Holds,
}

-- No key stands twice.
abbrev pub is_distinct : List ℕ → Bool
is_distinct [] = true
is_distinct (k ∷ ks) = not (has_key ks k) && is_distinct ks

pub record IsWellFormed (o : Options) (s : Session) : Type 0 where
  pub kept : IsKept s
  pub commands : is_distinct s.command_map ≡ true
  pub pings : is_distinct s.ping_start_timestamp ≡ true
  pub in_range : IsRange o s

pub has_key-append : (ks : List ℕ) (k j : ℕ) → has_key (ks ++ k ∷ []) j ≡ (has_key ks j || (k == j))
has_key-append [] k j = ground arith
has_key-append (i ∷ ks) k j = ground (arith, has_key-append ks k j)

is_distinct-append :
    (ks : List ℕ) (k : ℕ)
    → is_distinct ks ≡ true
    → has_key ks k ≡ false
    → is_distinct (ks ++ k ∷ []) ≡ true
is_distinct-append [] k h n = refl
is_distinct-append (i ∷ ks) k h n = ground (arith, has_key-append ks k i, is_distinct-append ks k)

pub is_distinct-add_key :
    (ks : List ℕ) (k : ℕ) → is_distinct ks ≡ true → is_distinct (add_key ks k) ≡ true
is_distinct-add_key ks k h = ground (arith, is_distinct-append ks k h)

has_key-delete_key :
    (ks : List ℕ) (k j : ℕ) → has_key ks j ≡ false → has_key (delete_key ks k) j ≡ false
has_key-delete_key [] k j h = refl
has_key-delete_key (i ∷ ks) k j h = ground (arith, has_key-delete_key ks k j)

pub is_distinct-delete_key :
    (ks : List ℕ) (k : ℕ) → is_distinct ks ≡ true → is_distinct (delete_key ks k) ≡ true
is_distinct-delete_key [] k h = refl
is_distinct-delete_key (i ∷ ks) k h =
    ground (arith, has_key-delete_key ks k i, is_distinct-delete_key ks k)

is_distinct-expire :
    (clock : ℕ → ℕ) (k timeout : ℕ) (keys : List ℕ) (queue : List Command)
    → is_distinct keys ≡ true
    → is_distinct (expire clock k timeout keys queue).0 ≡ true
is_distinct-expire clock k timeout keys [] h = h
is_distinct-expire clock k timeout keys (c ∷ cs) h =
    let fewer = is_distinct-delete_key keys c.cmd h in
    ground (arith, is_distinct-expire clock (k + 1) timeout (delete_key keys c.cmd) cs fewer)

-- What keeps the pointer, and leaves no key twice where there was none.
abbrev Tidy : Session → Outcome → Type 0
Tidy s r =
    (r.0.text_command_pointer ≡ s.text_command_pointer)
    × (is_distinct s.command_map ≡ true → is_distinct r.0.command_map ≡ true)
    × (is_distinct s.ping_start_timestamp ≡ true → is_distinct r.0.ping_start_timestamp ≡ true)

receive_command-Tidy :
    (o : Options) (clock : ℕ → ℕ) (cmd : ℕ) (f : Frame) (s : Session)
    → Tidy s (receive_command o clock cmd f s)
unfolding receive_command
receive_command-Tidy o clock cmd f s =
    let queue = s.command_queue ++ record { cmd = cmd; timestamp = clock 0 } ∷ [] in
    (
      ground arith,
      λ h. ground (
        arith,
        is_distinct-expire clock 1 o.command_timeout (add_key s.command_map cmd) queue
            (is_distinct-add_key s.command_map cmd h),
      ),
      λ h. ground arith,
    )

receive_pong-Tidy :
    (clock : ℕ → ℕ) (sent : Option ℕ) (s : Session) → Tidy s (receive_pong clock sent s)
unfolding receive_pong
receive_pong-Tidy clock none s = (refl, λ h. h, λ h. h)
receive_pong-Tidy clock (some sent) s = (
  ground arith,
  λ h. ground arith,
  λ h. ground (arith, is_distinct-delete_key s.ping_start_timestamp sent h),
)

on_decode_message-Tidy :
    (float_of : Bytes → ℕ) (o : Options) (clock : ℕ → ℕ) (index : ℕ) (f : Frame) (s : Session)
    → Holds Tidy s (on_decode_message float_of o clock index f s)
unfolding on_decode_message
on_decode_message-Tidy float_of o clock index f s =
    ground (arith, pong (first_float float_of f.payload), command f.cmd)
  where
    pong :
        (m : Result (Option ℕ))
        → Holds Tidy s (elim m [ ok sent ↦ ok (receive_pong clock sent s) | err e ↦ err e ])
    pong (ok sent) = receive_pong-Tidy clock sent s
    pong (err e) = refl

    command :
        (c : Option ℕ)
        → Holds Tidy s (elim c [
          | none ↦ ok (s, message_of o s f ∷ [])
          | some cmd ↦
              if (leb o.text_command_start cmd && leb cmd o.text_command_end)
                || (cmd == o.binary_command)
              then (if ltb 1 o.stream_count
                  then ok (receive_command o clock cmd f s)
                  else ok (s, message_of o s f ∷ []))
              else ok (s, [])
        ])
    command none = (refl, λ h. h, λ h. h)
    command (some cmd) = ground (arith, receive_command-Tidy o clock cmd f s)

module _ (float_of : Bytes → ℕ) (float_bytes : ℕ → Bytes) (o : Options)
    (starts_before_end : o.text_command_start ≤ o.text_command_end) where
  abbrev Preserves : Session → Outcome → Type 0
  Preserves s r = IsWellFormed o s → IsWellFormed o r.0

  received :
      (s : Session) (m : Result Outcome)
      → (IsKept s → Keeps m)
      → Holds Tidy s m
      → Holds Preserves s m
  received s (err e) k t = refl
  received s (ok r) k (pointer, commands, pings) = λ w. record {
    kept = k w.kept;
    commands = commands w.commands;
    pings = pings w.pings;
    in_range = rw pointer w.in_range;
  }

  get_text_command-IsWellFormed :
      (s : Session) → IsWellFormed o s → IsWellFormed o (get_text_command o s).0
  unfolding get_text_command
  get_text_command-IsWellFormed s w =
      ground (arith, starts_before_end, w.kept, w.commands, w.pings, w.in_range)

  send-IsWellFormed :
      (message : Bytes) (s : Session) → IsWellFormed o s → IsWellFormed o (send o message s).0
  unfolding send
  send-IsWellFormed message s w = ground (arith, w, get_text_command-IsWellFormed s w)

  send_binary-Preserves :
      (buffer : Bytes) (s : Session) → Holds Preserves s (send_binary o buffer s)
  unfolding send_binary
  send_binary-Preserves buffer s = ground arith

  ping-Preserves : (clock : ℕ → ℕ) (s : Session) → Holds Preserves s (ping float_bytes o clock s)
  unfolding ping
  ping-Preserves clock s =
      ground (arith, framed (encode (float_bytes (clock 0)) (some (pos o.ping_command))))
    where
      framed :
          (m : Result Bytes)
          → Holds Preserves s (elim m [
            | ok buffer ↦ ok (
              record s { ping_start_timestamp = add_key s.ping_start_timestamp (clock 0) },
              set_ping_timer (clock 0) ∷ write 0 buffer ∷ [],
            )
            | err e ↦ err e
          ])
      framed (err e) = refl
      framed (ok buffer) = λ w. record {
        kept = w.kept;
        commands = w.commands;
        pings = is_distinct-add_key s.ping_start_timestamp (clock 0) w.pings;
        in_range = w.in_range;
      }

  perform-Preserves :
      (a : Action) (s : Session) → Holds Preserves s (perform float_of float_bytes o a s)
  unfolding perform add_stream start_reading set_current_write_streams ping_timeout
  perform-Preserves to_add_stream s =
      λ w. record { kept = w.kept; commands = w.commands; pings = w.pings; in_range = w.in_range }
  perform-Preserves to_start_reading s =
      λ w. record { kept = w.kept; commands = w.commands; pings = w.pings; in_range = w.in_range }
  perform-Preserves (to_choose value) s =
      λ w. record { kept = w.kept; commands = w.commands; pings = w.pings; in_range = w.in_range }
  perform-Preserves (to_send message) s = send-IsWellFormed message s
  perform-Preserves (to_send_binary buffer) s = send_binary-Preserves buffer s
  perform-Preserves (to_ping clock) s = ping-Preserves clock s
  perform-Preserves (to_time_out clock now) s = λ w. record {
    kept = w.kept;
    commands = w.commands;
    pings = is_distinct-delete_key s.ping_start_timestamp now w.pings;
    in_range = w.in_range;
  }
  perform-Preserves (to_receive clock index f) s =
      received s (on_decode_message float_of o clock index f s)
        (on_decode_message-IsKept float_of o clock index f s)
        (on_decode_message-Tidy float_of o clock index f s)

  -- When the first text command is not above the last: after any calls and callbacks of a new
  -- object before `close`, in any order, of which none throws, the commands in the map are those of
  -- the queue, no command and no pending ping is kept twice, and the next text command is in its
  -- range.
  pub run-IsWellFormed :
      (has_decoder has_encoder : Bool) (actions : List Action) (s : Session) (out : List Effect)
      → run float_of float_bytes o actions (new_session o has_decoder has_encoder) ≡ ok (s, out)
      → IsWellFormed o s
  unfolding new_session
  run-IsWellFormed has_decoder has_encoder actions s out e =
      let begin = new_session o has_decoder has_encoder in
      let fresh : IsWellFormed o begin = record {
        kept = refl;
        commands = refl;
        pings = refl;
        in_range = ground (arith, starts_before_end);
      } in
      let kept =
        run-Holds float_of float_bytes o Preserves (λ s w. w) (λ s r r' h k w. k (h w))
          perform-Preserves actions begin in
      (rw e at kept) fresh

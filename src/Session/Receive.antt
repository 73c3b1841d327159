-- ===== src/Session/Receive.antt =====
-- What helper/WebTransportWS.js does with the frames that come in: `onDecodeMessage`, and the pings.
use webtransport_gos.Prelude.{
  ℕ, ◌+◌, ◌-◌, ◌%◌, Bool, false, ◌&&◌, ◌||◌, not, Option, none, some, List, [], ◌∷◌, ◌++◌, ltb, leb,
  ◌==◌, if◌then◌else◌, length, take,
}
use webtransport_gos.Prelude.Int.{pos, sub_ℕ}
use webtransport_gos.Js.Exn.{Result, ok, err, type_error, range_error}
use webtransport_gos.Js.Bytes.{Bytes}
use webtransport_gos.Avrage
use webtransport_gos.Avrage.{Avrage}
use webtransport_gos.NetString.{Frame}
use webtransport_gos.NetString.Encode.{encode}
use webtransport_gos.Session.{
  Options, Session, Effect, Outcome, Command, has_key, add_key, delete_key, write, on_message,
  on_ping, set_ping_timer, clear_ping_timer,
}

-- `payload.cmd === command`, where the command of a frame may be undefined.
abbrev pub is_command : Option ℕ → ℕ → Bool
is_command none command = false
is_command (some cmd) command = cmd == command

-- The loop that drops commands older than `commandTimeout`. The k-th reading of the clock is next.
abbrev pub expire : (ℕ → ℕ) → ℕ → ℕ → List ℕ → List Command → List ℕ × List Command
expire clock k timeout keys [] = (keys, [])
expire clock k timeout keys (c ∷ cs) =
    if ltb timeout (clock k - c.timestamp)
    then expire clock (k + 1) timeout (delete_key keys c.cmd) cs
    else (keys, c ∷ cs)

-- The message that `onmessage` is given.
abbrev pub message_of : Options → Session → Frame → Effect
message_of o s f = on_message f.payload (is_command f.cmd o.binary_command || not s.has_decoder)

-- The branch of commands when there are several streams: each of them carries every message.
unfoldable pub receive_command : Options → (ℕ → ℕ) → ℕ → Frame → Session → Outcome
receive_command o clock cmd f s =
    if has_key s.command_map cmd
    then (s, [])
    else (let (keys, queue) =
          expire clock 1 o.command_timeout (add_key s.command_map cmd)
            (s.command_queue ++ record { cmd = cmd; timestamp = clock 0 } ∷ []) in
        (record s { command_map = keys; command_queue = queue }, message_of o s f ∷ []))

-- `ping()`: `float_bytes` are the eight bytes of `new Float64Array([now])`.
unfoldable pub ping : (ℕ → Bytes) → Options → (ℕ → ℕ) → Session → Result Outcome
ping float_bytes o clock s =
    if ltb 0 s.writers
    then elim (encode (float_bytes (clock 0)) (some (pos o.ping_command))) [
      | ok buffer ↦ ok (
        record s { ping_start_timestamp = add_key s.ping_start_timestamp (clock 0) },
        set_ping_timer (clock 0) ∷ write 0 buffer ∷ [],
      )
      | err e ↦ err e
    ]
    else ok (s, [])

-- The timer of `ping`, five seconds later: no answer came.
unfoldable pub ping_timeout : (ℕ → ℕ) → ℕ → Session → Outcome
ping_timeout clock now s =
    let rtt = sub_ℕ (clock 0) now in
    (
      record s {
        ping_start_timestamp = delete_key s.ping_start_timestamp now;
        rtt = Avrage.push s.rtt rtt;
      },
      on_ping rtt ∷ [],
    )

-- `new Float64Array(payload.payload.buffer)[0]`, by `float_of` of the first eight bytes.
abbrev pub first_float : (Bytes → ℕ) → Option Bytes → Result (Option ℕ)
first_float float_of none = err type_error
first_float float_of (some b) =
    if not (length b % 8 == 0)
    then err range_error
    else ok (if length b == 0 then none else some (float_of (take 8 b)))

-- The answer to a ping.
unfoldable pub receive_pong : (ℕ → ℕ) → Option ℕ → Session → Outcome
receive_pong clock none s = (s, [])
receive_pong clock (some sent) s =
    let rtt = sub_ℕ (clock 0) sent in
    if has_key s.ping_start_timestamp sent
    then (
      record s {
        rtt = Avrage.push s.rtt rtt;
        ping_start_timestamp = delete_key s.ping_start_timestamp sent;
      },
      clear_ping_timer sent ∷ on_ping rtt ∷ [],
    )
    else (s, [])

-- `onDecodeMessage(instance, payload)`; `index` is the stream of `instance`. (`onmessage` and `onPing`
-- are taken to be set.)
unfoldable pub on_decode_message :
    (Bytes → ℕ) → Options → (ℕ → ℕ) → ℕ → Frame → Session → Result Outcome
unfolding receive_command receive_pong
on_decode_message float_of o clock index f s =
    if is_command f.cmd o.ping_command && o.enable_ping
    then elim (first_float float_of f.payload) [
      | ok sent ↦ ok (receive_pong clock sent s)
      | err e ↦ err e
    ]
    else if is_command f.cmd o.server_ping_command && o.enable_ping
    then (if ltb 0 s.writers && ltb 0 s.net_strings
        then (if ltb index s.writers then ok (s, write index f.serialized ∷ []) else err type_error)
        else ok (s, []))
    else elim f.cmd [
      | none ↦ ok (s, message_of o s f ∷ [])
      | some cmd ↦
          if (leb o.text_command_start cmd && leb cmd o.text_command_end)
            || (cmd == o.binary_command)
          then (if ltb 1 o.stream_count
              then ok (receive_command o clock cmd f s)
              else ok (s, message_of o s f ∷ []))
          else ok (s, [])
    ]

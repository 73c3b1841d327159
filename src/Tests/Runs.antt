-- ===== src/Tests/Runs.antt =====
-- Whole runs of a session: pings, messages and a choice of streams.
use webtransport_gos.Prelude.{
  ℕ, ◌≡◌, refl, true, false, some, List, [], ◌∷◌, ◌++◌, ◌+◌, arith, length, ◌%◌, if◌then◌else◌,
  ◌==◌,
}
use webtransport_gos.Prelude.Int.{pos}
use webtransport_gos.Js.Exn.{ok, err}
use webtransport_gos.Js.Bytes.{Bytes, set_bytes}
use webtransport_gos.NetString.{Frame}
use webtransport_gos.Avrage.{last_of}
use webtransport_gos.Session.{
  Outcome, new_session, connected, add_stream, start_reading, set_current_write_streams, send,
  get_text_command,
}
use webtransport_gos.Session.Receive.{ping, ping_timeout, on_decode_message}
use webtransport_gos.NetString.Encode.{encode}
use webtransport_gos.NetString.Decimal.{decimal}
use webtransport_gos.Session.Traces.{
  Action, to_add_stream, to_start_reading, to_send, to_ping, to_time_out, to_receive, run, perform,
}
use webtransport_gos.Session.Rtt.{sum, get_rtt, reported, get_rtt_lem}
use webtransport_gos.Session.WellFormed.{IsWellFormed, run-IsWellFormed}
use webtransport_gos.Session.Pings.{pings, IsTimed}
use webtransport_gos.Session.Pings.Reported.{Reach, begin, acts, runs_out, Reach-reported}
use webtransport_gos.Session.Choice.{chosen_too_early}
use webtransport_gos.Tests.Sessions.{options}

-- A clock that stands still, and numbers of one byte in the place of floating-point numbers.
abbrev at : ℕ → ℕ → ℕ
at n k = n

abbrev float_bytes : ℕ → Bytes
float_bytes n = (n % 256) ∷ 0 ∷ 0 ∷ 0 ∷ 0 ∷ 0 ∷ 0 ∷ 0 ∷ []

abbrev float_of : Bytes → ℕ
float_of [] = 0
float_of (b ∷ bytes) = b

abbrev frame : ℕ → Bytes → Frame
frame cmd bytes = record { payload = some bytes; serialized = []; cmd = some cmd }

-- Two pings, of which the second is answered after 4 and the first is given up after 50; a message that
-- comes over both streams; and one that is sent.
abbrev actions : List Action
actions =
    to_add_stream
    ∷ to_add_stream
    ∷ to_start_reading
    ∷ to_ping (at 10)
    ∷ to_ping (at 20)
    ∷ to_receive (at 24) 0 (frame 1 (float_bytes 20))
    ∷ to_time_out (at 60) 10
    ∷ to_receive (at 70) 0 (frame 25 (104 ∷ []))
    ∷ to_receive (at 71) 1 (frame 25 (104 ∷ []))
    ∷ to_send (105 ∷ [])
    ∷ []

abbrev result : Outcome
result = elim (run float_of float_bytes options actions (new_session options true true)) [
  | ok r ↦ r
  | err e ↦ (new_session options true true, [])
]

run_ends :
    run float_of float_bytes options actions (new_session options true true)
    ≡ ok (result.0, result.1)
unfolding run perform new_session add_stream start_reading ping encode set_bytes decimal
    on_decode_message
run_ends = refl

reports : reported result.1 ≡ pos 4 ∷ pos 50 ∷ []
unfolding run perform new_session add_stream start_reading ping encode set_bytes decimal
    on_decode_message ping_timeout send get_text_command
reports = refl

get_rtt_lem_example :
    let window = last_of 5 (reported result.1) in
    (result.0.rtt.queue ≡ window)
    × (get_rtt result.0 ≡ (if length window == 0 then (pos 0, 1) else (sum window, length window)))
get_rtt_lem_example =
    get_rtt_lem float_of float_bytes options true true actions result.0 result.1 run_ends

run-IsWellFormed_example : IsWellFormed options result.0
run-IsWellFormed_example =
    run-IsWellFormed float_of float_bytes options (omega arith) true true actions result.0 result.1
      run_ends

chosen_too_early_example :
    let s = set_current_write_streams (pos 2) (new_session options true true) in
    (s.current_write_streams ≡ pos 0)
    × ((send options (104 ∷ []) (connected false options s)).1 ≡ [])
chosen_too_early_example = chosen_too_early options (pos 2) false true (104 ∷ []) (omega arith) refl

-- A ping whose timer runs out.
abbrev pinged : Outcome
pinged =
    (elim (perform float_of float_bytes options (to_ping (at 10))
      (add_stream (new_session options true true))) [
        | ok r ↦ r
        | err e ↦ (new_session options true true, [])
      ])

pinged_is :
    perform float_of float_bytes options
      (to_ping (at 10))
      (add_stream (new_session options true true))
    ≡ ok (pinged.0, pinged.1)
unfolding perform new_session add_stream start_reading ping encode set_bytes decimal
pinged_is = refl

reached :
    Reach float_of float_bytes options true true
      (ping_timeout (at 60) 10 pinged.0).0
      []
      (pinged.1 ++ (ping_timeout (at 60) 10 pinged.0).1)
unfolding perform new_session add_stream start_reading ping encode set_bytes decimal
reached =
    runs_out (at 60) 10 refl
      (acts (to_ping (at 10)) refl pinged_is (acts to_add_stream refl refl begin))

Reach-reported_example :
    (length (reported (pinged.1 ++ (ping_timeout (at 60) 10 pinged.0).1)) + 0
      ≡ pings (pinged.1 ++ (ping_timeout (at 60) 10 pinged.0).1))
    × IsTimed (ping_timeout (at 60) 10 pinged.0).0 []
Reach-reported_example = Reach-reported float_of float_bytes options reached

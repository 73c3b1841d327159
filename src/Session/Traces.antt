-- ===== src/Session/Traces.antt =====
-- What may happen to the object of helper/WebTransportWS.js once it is made and before `close`, as a
-- list of calls and callbacks in any order: `connect` goes on by one stream at a time. A run that throws
-- is an error, as in the handler that was called. `close` sets most fields to null; what may come after
-- it is in Session/Lifecycle.antt.
use webtransport_gos.Prelude.{ℕ, List, [], ◌∷◌, ◌++◌, ◌≡◌, refl}
use webtransport_gos.Prelude.Int.{ℤ}
use webtransport_gos.Js.Exn.{Result, ok, err}
use webtransport_gos.Js.Bytes.{Bytes}
use webtransport_gos.NetString.{Frame}
use webtransport_gos.Session.{
  Options, Session, Outcome, add_stream, start_reading, set_current_write_streams, send,
  send_binary,
}
use webtransport_gos.Session.Receive.{ping, ping_timeout, on_decode_message}

-- Each with the readings of the clock that it takes.
pub data Action : Type 0 where
  to_add_stream to_start_reading : Action
  to_choose : ℤ → Action
  to_send : Bytes → Action
  to_send_binary : Bytes → Action
  to_ping : (ℕ → ℕ) → Action
  to_time_out : (ℕ → ℕ) → ℕ → Action
  to_receive : (ℕ → ℕ) → ℕ → Frame → Action

-- What an object and what comes of it agree on. A handler that throws leaves no new object.
abbrev pub Holds : (Session → Outcome → Type 0) → Session → Result Outcome → Type 0
Holds R s (ok r) = R s r
Holds R s (err e) = ◌≡◌ {A = ℕ} 0 0

module _ (float_of : Bytes → ℕ) (float_bytes : ℕ → Bytes) (o : Options) where
  unfoldable pub perform : Action → Session → Result Outcome
  perform to_add_stream s = ok (add_stream s, [])
  perform to_start_reading s = ok (start_reading o s, [])
  perform (to_choose value) s = ok (set_current_write_streams value s, [])
  perform (to_send message) s = ok (send o message s)
  perform (to_send_binary buffer) s = send_binary o buffer s
  perform (to_ping clock) s = ping float_bytes o clock s
  perform (to_time_out clock now) s = ok (ping_timeout clock now s)
  perform (to_receive clock index f) s = on_decode_message float_of o clock index f s

  unfoldable pub run : List Action → Session → Result Outcome
  unfolding perform
  run [] s = ok (s, [])
  run (a ∷ actions) s = elim (perform a s) [
    | err e ↦ err e
    | ok r ↦ elim (run actions r.0) [ err e ↦ err e | ok r' ↦ ok (r'.0, r.1 ++ r'.1) ]
  ]

  module _ (R : Session → Outcome → Type 0) (idle : (s : Session) → R s (s, []))
      (joined : (s : Session) (r r' : Outcome) → R s r → R r.0 r' → R s (r'.0, r.1 ++ r'.1))
      (each : (a : Action) (s : Session) → Holds R s (perform a s)) where
    -- What holds of every action, and of two runs together, holds of every run.
    pub run-Holds : (actions : List Action) (s : Session) → Holds R s (run actions s)
    unfolding run
    run-Holds [] s = idle s
    run-Holds (a ∷ actions) s = settled (perform a s) (each a s) (λ r. run-Holds actions r.0)
      where
        then_rest :
            (r : Outcome) (m : Result Outcome)
            → R s r
            → Holds R r.0 m
            → Holds R s (elim m [ err e ↦ err e | ok r' ↦ ok (r'.0, r.1 ++ r'.1) ])
        then_rest r (err e) h k = refl
        then_rest r (ok r') h k = joined s r r' h k

        settled :
            (m : Result Outcome)
            → Holds R s m
            → ((r : Outcome) → Holds R r.0 (run actions r.0))
            → Holds R s (elim m [
              | err e ↦ err e
              | ok r ↦ elim (run actions r.0) [ err e ↦ err e | ok r' ↦ ok (r'.0, r.1 ++ r'.1) ]
            ])
        settled (err e) h later = refl
        settled (ok r) h later = then_rest r (run actions r.0) h (later r)

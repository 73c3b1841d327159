-- ===== src/Session/Pings/Reported.antt =====
-- Every ping of helper/WebTransportWS.js comes to one report, over whole runs with their timers.
use webtransport_gos.Prelude.{
  ℕ, ◌+◌, ◌≡◌, refl, Bool, true, false, List, [], ◌∷◌, ◌++◌, arith, length,
}
use webtransport_gos.Js.Exn.{ok}
use webtransport_gos.Js.Bytes.{Bytes}
use webtransport_gos.Session.{
  Options, Session, Effect, new_session, add_stream, start_reading, set_current_write_streams,
  has_key, delete_key,
}
use webtransport_gos.Session.Receive.{ping_timeout}
use webtransport_gos.Session.Traces.{
  Action, to_add_stream, to_start_reading, to_choose, to_send, to_send_binary, to_ping, to_time_out,
  to_receive, perform, Holds,
}
use webtransport_gos.Session.Rtt.{reported}
use webtransport_gos.Session.WellFormed.{is_distinct-delete_key}
use webtransport_gos.Session.Pings.{
  timers, pings, IsTimed, Accounts, quiet-Accounts, ended, length-delete_key,
}
use webtransport_gos.Session.Pings.Handlers.{
  send-Accounts, send_binary-Accounts, ping-Accounts, on_decode_message-Accounts,
}

abbrev pub is_timeout : Action → Bool
is_timeout (to_time_out clock now) = true
is_timeout _ = false

module _ (float_of : Bytes → ℕ) (float_bytes : ℕ → Bytes) (o : Options) where
  act-Accounts :
      (a : Action) (s : Session)
      → is_timeout a ≡ false
      → Holds Accounts s (perform float_of float_bytes o a s)
  unfolding perform add_stream start_reading set_current_write_streams
  act-Accounts to_add_stream s h = quiet-Accounts s _ [] refl refl
  act-Accounts to_start_reading s h = quiet-Accounts s _ [] refl refl
  act-Accounts (to_choose value) s h = quiet-Accounts s _ [] refl refl
  act-Accounts (to_send message) s h = send-Accounts o message s
  act-Accounts (to_send_binary buffer) s h = send_binary-Accounts o buffer s
  act-Accounts (to_ping clock) s h = ping-Accounts float_bytes o clock s
  act-Accounts (to_time_out clock now) s h = cc
  act-Accounts (to_receive clock index f) s h =
      on_decode_message-Accounts float_of o clock index f s

  -- What is done from the constructor on, with the timers that are pending: only these run out.
  pub data Reach (has_decoder has_encoder : Bool) : Session → List ℕ → List Effect → Type 0 where
    begin : Reach has_decoder has_encoder (new_session o has_decoder has_encoder) [] []
    acts :
        {s s' : Session} {ts : List ℕ} {done out : List Effect} (a : Action)
        → is_timeout a ≡ false
        → perform float_of float_bytes o a s ≡ ok (s', out)
        → Reach has_decoder has_encoder s ts done
        → Reach has_decoder has_encoder s' (timers out ts) (done ++ out)
    runs_out :
        {s : Session} {ts : List ℕ} {done : List Effect} (clock : ℕ → ℕ) (now : ℕ)
        → has_key ts now ≡ true
        → Reach has_decoder has_encoder s ts done
        → Reach has_decoder has_encoder
            (ping_timeout clock now s).0
            (delete_key ts now)
            (done ++ (ping_timeout clock now s).1)

  reported-append :
      (xs ys : List Effect)
      → length (reported (xs ++ ys)) ≡ length (reported xs) + length (reported ys)
  reported-append [] ys = omega arith
  reported-append (x ∷ xs) ys = ground (arith, reported-append xs ys)

  pings-append : (xs ys : List Effect) → pings (xs ++ ys) ≡ pings xs + pings ys
  pings-append [] ys = omega arith
  pings-append (x ∷ xs) ys = ground (arith, pings-append xs ys)

  -- What was done agrees with the timers.
  abbrev IsSettled : Session → List ℕ → List Effect → Type 0
  IsSettled s ts done = IsTimed s ts × (length (reported done) + length ts ≡ pings done)

  acts-IsSettled :
      (a : Action) (s s' : Session) (ts : List ℕ) (done out : List Effect)
      → is_timeout a ≡ false
      → perform float_of float_bytes o a s ≡ ok (s', out)
      → IsSettled s ts done
      → IsSettled s' (timers out ts) (done ++ out)
  acts-IsSettled a s s' ts done out h e (v, count) =
      let accounts : Accounts s (s', out) = rw e at (act-Accounts a s h) in
      let (v', moved) = accounts ts v in
      (v', omega (arith, count, moved, reported-append done out, pings-append done out))

  runs_out-IsSettled :
      (clock : ℕ → ℕ) (now : ℕ) (s : Session) (ts : List ℕ) (done : List Effect)
      → has_key ts now ≡ true
      → IsSettled s ts done
      → IsSettled
          (ping_timeout clock now s).0
          (delete_key ts now)
          (done ++ (ping_timeout clock now s).1)
  unfolding ping_timeout
  runs_out-IsSettled clock now s ts done h (v, count) =
      let out = (ping_timeout clock now s).1 in
      (
        record {
          timed = ended s ts now v;
          distinct = is_distinct-delete_key s.ping_start_timestamp now v.distinct;
        },
        omega (
          arith,
          count,
          length-delete_key ts now h,
          reported-append done out,
          pings-append done out,
        ),
      )

  Reach-IsSettled :
      {d e : Bool} {s : Session} {ts : List ℕ} {done : List Effect}
      → Reach d e s ts done
      → IsSettled s ts done
  unfolding new_session
  Reach-IsSettled begin = (record { timed = λ k h. cc; distinct = refl }, refl)
  Reach-IsSettled (acts {s = s} {s' = s'} {ts = ts} {done = done} {out = out} a h p r) =
      acts-IsSettled a s s' ts done out h p (Reach-IsSettled r)
  Reach-IsSettled (runs_out {s = s} {ts = ts} {done = done} clock now h r) =
      runs_out-IsSettled clock now s ts done h (Reach-IsSettled r)

  -- After any calls and callbacks of a new object before `close`, in any order, of which none
  -- throws and where only timers that are pending run out: the reports to `onPing`, by an answer or
  -- by a timer, and the timers that are still pending are together as many as the pings that were
  -- made; and every ping that waits for its answer has a timer and waits once.
  pub Reach-reported :
      {has_decoder has_encoder : Bool} {s : Session} {ts : List ℕ} {done : List Effect}
      → Reach has_decoder has_encoder s ts done
      → (length (reported done) + length ts ≡ pings done) × IsTimed s ts
  Reach-reported r = let (v, count) = Reach-IsSettled r in (count, v)

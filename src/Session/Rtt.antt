-- ===== src/Session/Rtt.antt =====
-- The round trip time that helper/WebTransportWS.js keeps in an Avrage: `getRTT`.
use webtransport_gos.Prelude.{
  ℕ, zero, suc, ◌+◌, ◌≡◌, refl, ap, sym, ◌∙◌, Bool, Option, none, some, List, [], ◌∷◌, ◌++◌, arith,
  length, ltb, leb, ◌==◌, ◌&&◌, ◌||◌, if◌then◌else◌,
}
use webtransport_gos.Prelude.Int.{ℤ, pos, ◌+ℤ◌, +ℤ_parts, eq_of_parts}
use webtransport_gos.Js.Exn.{Result, ok, err}
use webtransport_gos.Js.Bytes.{Bytes}
use webtransport_gos.NetString.{Frame}
use webtransport_gos.NetString.Encode.{encode}
use webtransport_gos.Avrage
use webtransport_gos.Avrage.{
  Avrage, new_avrage, push_all, push_all_lem, last_of, get_value, sum_loop,
}
use webtransport_gos.Session.{
  Options, Session, Effect, Outcome, on_ping, on_close, slice_end, new_session, add_stream,
  start_reading, write_each, get_text_command, set_current_write_streams, send, send_binary,
}
use webtransport_gos.Session.Receive.{
  ping, ping_timeout, on_decode_message, receive_command, receive_pong, first_float, message_of,
}
use webtransport_gos.Session.Traces.{
  Action, to_add_stream, to_start_reading, to_choose, to_send, to_send_binary, to_ping, to_time_out,
  to_receive, perform, run, Holds, run-Holds,
}

-- `getRTT()`
unfoldable pub get_rtt : Session → ℤ × ℕ
get_rtt s = get_value s.rtt

-- What `onPing` was given.
abbrev pub reported : List Effect → List ℤ
reported [] = []
reported (on_ping rtt ∷ out) = rtt ∷ reported out
reported (_ ∷ out) = reported out

reported-append : (xs ys : List Effect) → reported (xs ++ ys) ≡ reported xs ++ reported ys
reported-append [] ys = refl
reported-append (x ∷ xs) ys = ground (arith, reported-append xs ys)

push_all-append :
    (a : Avrage) (vs ws : List ℤ) → push_all a (vs ++ ws) ≡ push_all (push_all a vs) ws
unfolding push_all
push_all-append a [] ws = refl
push_all-append a (v ∷ vs) ws = push_all-append (Avrage.push a v) vs ws

reported-write_each : (i n : ℕ) (buffer : Bytes) → reported (write_each i n buffer) ≡ []
reported-write_each i zero buffer = refl
reported-write_each i (suc n) buffer = reported-write_each (i + 1) n buffer

-- The sum of integers.
abbrev pub sum : List ℤ → ℤ
sum [] = pos 0
sum (v ∷ vs) = v +ℤ sum vs

sum_loop-sum : (n : ℤ) (vs : List ℤ) → sum_loop n vs ≡ n +ℤ sum vs
sum_loop-sum n [] = eq_of_parts n (n +ℤ pos 0) (omega (arith, +ℤ_parts n (pos 0)))
sum_loop-sum n (v ∷ vs) =
    sum_loop-sum (n +ℤ v) vs
    ∙ eq_of_parts (n +ℤ v +ℤ sum vs) (n +ℤ (v +ℤ sum vs)) (
        omega (
          arith,
          +ℤ_parts (n +ℤ v) (sum vs),
          +ℤ_parts n v,
          +ℤ_parts n (v +ℤ sum vs),
          +ℤ_parts v (sum vs),
        ))

sum_loop_lem : (vs : List ℤ) → sum_loop (pos 0) vs ≡ sum vs
sum_loop_lem vs =
    sum_loop-sum (pos 0) vs
    ∙ eq_of_parts (pos 0 +ℤ sum vs) (sum vs) (omega (arith, +ℤ_parts (pos 0) (sum vs)))

-- What is reported is averaged in, and nothing else.
abbrev IsReported : Session → Outcome → Type 0
IsReported s r = r.0.rtt ≡ push_all s.rtt (reported r.1)

abbrev Reports : Session → Result Outcome → Type 0
Reports = Holds IsReported

-- Acts that report nothing, of an object whose average is as it was.
silent :
    (s s' : Session) (out : List Effect)
    → s'.rtt ≡ s.rtt
    → reported out ≡ []
    → IsReported s (s', out)
unfolding push_all
silent s s' out e h = rw (h, e) refl

send-IsReported : (o : Options) (message : Bytes) (s : Session) → IsReported s (send o message s)
unfolding send get_text_command push_all
send-IsReported o message s =
    let n = if o.auto_stream then slice_end s.writers s.current_write_streams else s.writers in
    let (s', cmd) = get_text_command o s in ground (arith, encoded n (encode message (some cmd)))
  where
    encoded :
        (n : ℕ) (m : Result Bytes)
        → IsReported s (elim m [
          | ok buffer ↦ ((get_text_command o s).0, write_each 0 n buffer)
          | err e ↦ ((get_text_command o s).0, on_close ∷ [])
        ])
    encoded n (ok b) =
        silent s (get_text_command o s).0 (write_each 0 n b) (ground arith)
          (reported-write_each 0 n b)
    encoded n (err e) = ground arith

send_binary-Reports :
    (o : Options) (buffer : Bytes) (s : Session) → Reports s (send_binary o buffer s)
unfolding send_binary push_all
send_binary-Reports o buffer s = ground (
  arith,
  reported-write_each 0 s.writers buffer,
  framed (encode buffer (some (pos o.binary_command))),
)
  where
    framed :
        (m : Result Bytes)
        → Reports s (elim m [ ok framed ↦ ok (s, write_each 0 s.writers framed) | err e ↦ err e ])
    framed (ok b) = silent s s (write_each 0 s.writers b) refl (reported-write_each 0 s.writers b)
    framed (err e) = refl

ping-Reports :
    (float_bytes : ℕ → Bytes) (o : Options) (clock : ℕ → ℕ) (s : Session)
    → Reports s (ping float_bytes o clock s)
unfolding ping push_all
ping-Reports float_bytes o clock s = ground arith

receive_pong-IsReported :
    (clock : ℕ → ℕ) (sent : Option ℕ) (s : Session) → IsReported s (receive_pong clock sent s)
unfolding receive_pong push_all
receive_pong-IsReported clock none s = refl
receive_pong-IsReported clock (some sent) s = ground arith

receive_command-IsReported :
    (o : Options) (clock : ℕ → ℕ) (cmd : ℕ) (f : Frame) (s : Session)
    → IsReported s (receive_command o clock cmd f s)
unfolding receive_command push_all
receive_command-IsReported o clock cmd f s = ground arith

on_decode_message-Reports :
    (float_of : Bytes → ℕ) (o : Options) (clock : ℕ → ℕ) (index : ℕ) (f : Frame) (s : Session)
    → Reports s (on_decode_message float_of o clock index f s)
unfolding on_decode_message push_all
on_decode_message-Reports float_of o clock index f s =
    ground (arith, pong (first_float float_of f.payload), command f.cmd)
  where
    pong :
        (m : Result (Option ℕ))
        → Reports s (elim m [ ok sent ↦ ok (receive_pong clock sent s) | err e ↦ err e ])
    pong (ok sent) = receive_pong-IsReported clock sent s
    pong (err e) = refl

    command :
        (c : Option ℕ)
        → Reports s (elim c [
          | none ↦ ok (s, message_of o s f ∷ [])
          | some cmd ↦
              if (leb o.text_command_start cmd && leb cmd o.text_command_end)
                || (cmd == o.binary_command)
              then (if ltb 1 o.stream_count
                  then ok (receive_command o clock cmd f s)
                  else ok (s, message_of o s f ∷ []))
              else ok (s, [])
        ])
    command none = refl
    command (some cmd) = ground (arith, receive_command-IsReported o clock cmd f s)

module _ (float_of : Bytes → ℕ) (float_bytes : ℕ → Bytes) (o : Options) where
  perform-Reports : (a : Action) (s : Session) → Reports s (perform float_of float_bytes o a s)
  unfolding perform add_stream start_reading set_current_write_streams ping_timeout push_all
  perform-Reports to_add_stream s = refl
  perform-Reports to_start_reading s = refl
  perform-Reports (to_choose value) s = refl
  perform-Reports (to_send message) s = send-IsReported o message s
  perform-Reports (to_send_binary buffer) s = send_binary-Reports o buffer s
  perform-Reports (to_ping clock) s = ping-Reports float_bytes o clock s
  perform-Reports (to_time_out clock now) s = refl
  perform-Reports (to_receive clock index f) s =
      on_decode_message-Reports float_of o clock index f s

  joined :
      (s : Session) (r r' : Outcome)
      → IsReported s r
      → IsReported r.0 r'
      → IsReported s (r'.0, r.1 ++ r'.1)
  joined s r r' h k =
      k
      ∙ ap (λ a. push_all a (reported r'.1)) h
      ∙ sym (push_all-append s.rtt (reported r.1) (reported r'.1))
      ∙ ap (push_all s.rtt) (sym (reported-append r.1 r'.1))

  run-Reports :
      (actions : List Action) (s : Session) → Reports s (run float_of float_bytes o actions s)
  unfolding push_all
  run-Reports = run-Holds float_of float_bytes o IsReported (λ s. refl) joined perform-Reports

  -- After any calls and callbacks of a new object before `close`, in any order, of which none throws: the
  -- round trip times that are averaged are the last five that `onPing` was given, in order, and `getRTT`
  -- is their sum over their number, and 0 if there is none yet.
  pub get_rtt_lem :
      (has_decoder has_encoder : Bool) (actions : List Action) (s : Session) (out : List Effect)
      → run float_of float_bytes o actions (new_session o has_decoder has_encoder) ≡ ok (s, out)
      → let window = last_of 5 (reported out) in
        (s.rtt.queue ≡ window)
        × (get_rtt s ≡ (if length window == 0 then (pos 0, 1) else (sum window, length window)))
  unfolding new_session get_rtt get_value
  get_rtt_lem has_decoder has_encoder actions s out e =
      let done = run-Reports actions (new_session o has_decoder has_encoder) in
      let pushed : s.rtt ≡ push_all (new_avrage 5) (reported out) = rw e at done in
      let held = ap (λ (a : Avrage). a.queue) pushed ∙ push_all_lem 5 (reported out) in
      (held, rw held (rw (sum_loop_lem (last_of 5 (reported out))) refl))

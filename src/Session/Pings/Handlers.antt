-- ===== src/Session/Pings/Handlers.antt =====
-- The handlers of helper/WebTransportWS.js keep the account of the pings and their timers.
use webtransport_gos.Prelude.{
  ℕ, ◌≡◌, refl, Bool, true, false, Option, none, some, List, [], ◌∷◌, ◌++◌, arith, if◌then◌else◌,
  ltb, leb, ◌==◌, ◌&&◌, ◌||◌, Bool-cases, inl, inr, length-append,
}
use webtransport_gos.Prelude.Int.{pos}
use webtransport_gos.Js.Exn.{Result, ok, err}
use webtransport_gos.Js.Bytes.{Bytes}
use webtransport_gos.NetString.{Frame}
use webtransport_gos.NetString.Encode.{encode}
use webtransport_gos.Session.{
  Options, Session, Outcome, write, on_close, set_ping_timer, get_text_command, send, send_binary,
  write_each, has_key, add_key, slice_end, is_text,
}
use webtransport_gos.Session.Receive.{
  ping, on_decode_message, receive_command, receive_pong, first_float, message_of, is_command,
}
use webtransport_gos.Session.Traces.{Holds}
use webtransport_gos.Session.WellFormed.{has_key-append, is_distinct-add_key}
use webtransport_gos.Session.Pings.{
  IsTimed, Accounts, quiet-Accounts, is_quiet, quiet-write_each, receive_pong-Accounts,
}

pub send-Accounts : (o : Options) (message : Bytes) (s : Session) → Accounts s (send o message s)
unfolding send get_text_command
send-Accounts o message s =
    let n = if o.auto_stream then slice_end s.writers s.current_write_streams else s.writers in
    let cmd = (get_text_command o s).1 in
    quiet-Accounts s (send o message s).0 (send o message s).1
      (ground (arith, (framed n (encode message (some cmd))).0))
      (ground (arith, (framed n (encode message (some cmd))).1))
  where
    Unchanged : Outcome → Type 0
    Unchanged r = (r.0.ping_start_timestamp ≡ s.ping_start_timestamp) × (is_quiet r.1 ≡ true)

    framed :
        (n : ℕ) (m : Result Bytes)
        → Unchanged (elim m [
          | ok buffer ↦ ((get_text_command o s).0, write_each 0 n buffer)
          | err e ↦ ((get_text_command o s).0, on_close ∷ [])
        ])
    framed n (ok b) = (ground arith, quiet-write_each 0 n b)
    framed n (err e) = (ground arith, refl)

pub send_binary-Accounts :
    (o : Options) (buffer : Bytes) (s : Session) → Holds Accounts s (send_binary o buffer s)
unfolding send_binary
send_binary-Accounts o buffer s = elim (Bool-cases (is_text o.mode && ltb 0 s.writers)) [
  | inl framing ↦ rw framing (framed (encode buffer (some (pos o.binary_command))))
  | inr plain ↦ rw plain (
      quiet-Accounts s s (write_each 0 s.writers buffer) refl (quiet-write_each 0 s.writers buffer))
]
  where
    framed :
        (m : Result Bytes)
        → Holds Accounts s
            (elim m [ ok framed ↦ ok (s, write_each 0 s.writers framed) | err e ↦ err e ])
    framed (ok b) =
        quiet-Accounts s s (write_each 0 s.writers b) refl (quiet-write_each 0 s.writers b)
    framed (err e) = refl

pub ping-Accounts :
    (float_bytes : ℕ → Bytes) (o : Options) (clock : ℕ → ℕ) (s : Session)
    → Holds Accounts s (ping float_bytes o clock s)
unfolding ping
ping-Accounts float_bytes o clock s = elim (Bool-cases (ltb 0 s.writers)) [
  | inl open_ ↦ rw open_ (framed (encode (float_bytes (clock 0)) (some (pos o.ping_command))))
  | inr none_open ↦ rw none_open (quiet-Accounts s s [] refl refl)
]
  where
    made :
        (ts : List ℕ)
        → IsTimed s ts
        → (k : ℕ) → has_key (add_key s.ping_start_timestamp (clock 0)) k ≡ true
        → has_key (ts ++ clock 0 ∷ []) k ≡ true
    made ts v k h = ground (
      arith,
      h,
      has_key-append s.ping_start_timestamp (clock 0) k,
      has_key-append ts (clock 0) k,
      v.timed k,
    )

    framed :
        (m : Result Bytes)
        → Holds Accounts s (elim m [
          | ok buffer ↦ ok (
            record s { ping_start_timestamp = add_key s.ping_start_timestamp (clock 0) },
            set_ping_timer (clock 0) ∷ write 0 buffer ∷ [],
          )
          | err e ↦ err e
        ])
    framed (err e) = refl
    framed (ok buffer) = λ ts v. (
      record {
        timed = made ts v;
        distinct = is_distinct-add_key s.ping_start_timestamp (clock 0) v.distinct;
      },
      omega (arith, length-append ts (clock 0 ∷ [])),
    )

receive_command-Accounts :
    (o : Options) (clock : ℕ → ℕ) (cmd : ℕ) (f : Frame) (s : Session)
    → Accounts s (receive_command o clock cmd f s)
unfolding receive_command
receive_command-Accounts o clock cmd f s =
    quiet-Accounts s (receive_command o clock cmd f s).0 (receive_command o clock cmd f s).1
      (ground arith) (ground arith)

either :
    (s : Session) (b : Bool) (x y : Result Outcome)
    → Holds Accounts s x
    → Holds Accounts s y
    → Holds Accounts s (if b then x else y)
either s true x y h k = h
either s false x y h k = k

pub on_decode_message-Accounts :
    (float_of : Bytes → ℕ) (o : Options) (clock : ℕ → ℕ) (index : ℕ) (f : Frame) (s : Session)
    → Holds Accounts s (on_decode_message float_of o clock index f s)
unfolding on_decode_message
on_decode_message-Accounts float_of o clock index f s =
    either s (is_command f.cmd o.ping_command && o.enable_ping) _ _
      (pong (first_float float_of f.payload))
      (either s (is_command f.cmd o.server_ping_command && o.enable_ping) _ _
        (either s (ltb 0 s.writers && ltb 0 s.net_strings) _ _
          (either s (ltb index s.writers) _ _
            (quiet-Accounts s s (write index f.serialized ∷ []) refl refl) refl)
          (quiet-Accounts s s [] refl refl))
        (command f.cmd))
  where
    pong :
        (m : Result (Option ℕ))
        → Holds Accounts s (elim m [ ok sent ↦ ok (receive_pong clock sent s) | err e ↦ err e ])
    pong (ok sent) = receive_pong-Accounts clock sent s
    pong (err e) = refl

    command :
        (c : Option ℕ)
        → Holds Accounts s (elim c [
          | none ↦ ok (s, message_of o s f ∷ [])
          | some cmd ↦
              if (leb o.text_command_start cmd && leb cmd o.text_command_end)
                || (cmd == o.binary_command)
              then (if ltb 1 o.stream_count
                  then ok (receive_command o clock cmd f s)
                  else ok (s, message_of o s f ∷ []))
              else ok (s, [])
        ])
    command none = quiet-Accounts s s (message_of o s f ∷ []) refl refl
    command (some cmd) =
        either s
          ((leb o.text_command_start cmd && leb cmd o.text_command_end)
            || (cmd == o.binary_command))
          _ _
          (either s (ltb 1 o.stream_count) _ _ (receive_command-Accounts o clock cmd f s)
            (quiet-Accounts s s (message_of o s f ∷ []) refl refl))
          (quiet-Accounts s s [] refl refl)

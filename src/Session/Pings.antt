-- ===== src/Session/Pings.antt =====
-- The pings of helper/WebTransportWS.js with their timers: what becomes of each.
pub mod Handlers
pub mod Reported
use webtransport_gos.Prelude.{
  ℕ, zero, suc, ◌+◌, ◌<◌, ◌≡◌, refl, ap, sym, ◌∙◌, Bool, true, false, not, Option, none, some, List,
  [], ◌∷◌, ◌++◌, arith, length, if◌then◌else◌, ltb, leb, ◌==◌, ◌&&◌, ◌||◌, Bool-cases, inl, inr,
  length-append,
}
use webtransport_gos.Prelude.Int.{ℤ, pos, sub_ℕ}
use webtransport_gos.Js.Exn.{Result, ok, err}
use webtransport_gos.Js.Bytes.{Bytes}
use webtransport_gos.NetString.{Frame}
use webtransport_gos.NetString.Encode.{encode}
use webtransport_gos.Session.{
  Options, Session, Effect, Outcome, write, on_message, on_ping, on_close, set_ping_timer,
  clear_ping_timer, new_session, add_stream, start_reading, get_text_command,
  set_current_write_streams, send, send_binary, write_each, has_key, add_key, delete_key, slice_end,
  is_text,
}
use webtransport_gos.Session.Receive.{
  ping, ping_timeout, on_decode_message, receive_command, receive_pong, first_float, message_of,
  is_command,
}
use webtransport_gos.Session.Traces.{
  Action, to_add_stream, to_start_reading, to_choose, to_send, to_send_binary, to_ping, to_time_out,
  to_receive, perform, Holds,
}
use webtransport_gos.Session.Rtt.{reported}
use webtransport_gos.Session.WellFormed.{
  is_distinct, has_key-append, is_distinct-add_key, is_distinct-delete_key,
}

-- The timers that are pending, by the times of their pings, once acts were done.
abbrev pub timers : List Effect → List ℕ → List ℕ
timers [] ts = ts
timers (set_ping_timer now ∷ out) ts = timers out (ts ++ now ∷ [])
timers (clear_ping_timer now ∷ out) ts = timers out (delete_key ts now)
timers (_ ∷ out) ts = timers out ts

-- How many pings were made: each sets a timer.
abbrev pub pings : List Effect → ℕ
pings [] = 0
pings (set_ping_timer now ∷ out) = suc (pings out)
pings (_ ∷ out) = pings out

-- Acts that are no pings, reports or timers.
abbrev pub is_quiet : List Effect → Bool
is_quiet [] = true
is_quiet (write i buffer ∷ out) = is_quiet out
is_quiet (on_message m b ∷ out) = is_quiet out
is_quiet (on_close ∷ out) = is_quiet out
is_quiet (_ ∷ out) = false

quiet_lem :
    (out : List Effect) (ts : List ℕ)
    → is_quiet out ≡ true
    → (reported out ≡ []) × (timers out ts ≡ ts) × (pings out ≡ 0)
quiet_lem [] ts h = (refl, refl, refl)
quiet_lem (write i buffer ∷ out) ts h = quiet_lem out ts h
quiet_lem (on_message m b ∷ out) ts h = quiet_lem out ts h
quiet_lem (on_close ∷ out) ts h = quiet_lem out ts h
quiet_lem (on_ping rtt ∷ out) ts h = cc
quiet_lem (set_ping_timer n ∷ out) ts h = cc
quiet_lem (clear_ping_timer n ∷ out) ts h = cc

pub quiet-write_each : (i n : ℕ) (buffer : Bytes) → is_quiet (write_each i n buffer) ≡ true
quiet-write_each i zero buffer = refl
quiet-write_each i (suc n) buffer = quiet-write_each (i + 1) n buffer

-- Every ping that waits has a timer, and none waits twice.
pub record IsTimed (s : Session) (ts : List ℕ) : Type 0 where
  pub timed : (k : ℕ) → has_key s.ping_start_timestamp k ≡ true → has_key ts k ≡ true
  pub distinct : is_distinct s.ping_start_timestamp ≡ true

-- What is done keeps that, and a timer goes for each report and comes with each ping.
abbrev pub Accounts : Session → Outcome → Type 0
Accounts s r =
    (ts : List ℕ)
    → IsTimed s ts
    → IsTimed r.0 (timers r.1 ts)
      × (length (reported r.1) + length (timers r.1 ts) ≡ pings r.1 + length ts)

pub quiet-Accounts :
    (s s' : Session) (out : List Effect)
    → s'.ping_start_timestamp ≡ s.ping_start_timestamp
    → is_quiet out ≡ true
    → Accounts s (s', out)
quiet-Accounts s s' out same quiet ts v =
    let (none_reported, kept, none_made) = quiet_lem out ts quiet in
    (
      record { timed = λ k h. rw kept (v.timed k (rw same at h)); distinct = rw same v.distinct },
      ground (arith, none_reported, kept, none_made),
    )

pub length-delete_key :
    (ks : List ℕ) (k : ℕ) → has_key ks k ≡ true → length ks ≡ suc (length (delete_key ks k))
length-delete_key [] k h = cc
length-delete_key (i ∷ ks) k h = ground (arith, length-delete_key ks k)

has_key-delete_other :
    (ks : List ℕ) (k j : ℕ) → (k == j) ≡ false → has_key (delete_key ks k) j ≡ has_key ks j
has_key-delete_other [] k j h = refl
has_key-delete_other (i ∷ ks) k j h = ground (arith, h, has_key-delete_other ks k j)

deleted : (ks : List ℕ) (k : ℕ) → is_distinct ks ≡ true → has_key (delete_key ks k) k ≡ false
deleted [] k h = refl
deleted (i ∷ ks) k h = ground (arith, h, deleted ks k)

-- The end of a ping, by an answer or by its timer.
pub ended :
    (s : Session) (ts : List ℕ) (now : ℕ)
    → IsTimed s ts
    → (k : ℕ) → has_key (delete_key s.ping_start_timestamp now) k ≡ true
    → has_key (delete_key ts now) k ≡ true
ended s ts now v k h = elim (Bool-cases (now == k)) [
  | inl same ↦
      let gone = deleted s.ping_start_timestamp now v.distinct in
      let numbers : now ≡ k = ground (arith, same) in absurd (cc (gone, h, numbers))
  | inr other ↦
      has_key-delete_other ts now k other
      ∙ v.timed k (sym (has_key-delete_other s.ping_start_timestamp now k other) ∙ h)
]

pub receive_pong-Accounts :
    (clock : ℕ → ℕ) (sent : Option ℕ) (s : Session) → Accounts s (receive_pong clock sent s)
unfolding receive_pong
receive_pong-Accounts clock none s = quiet-Accounts s s [] refl refl
receive_pong-Accounts clock (some sent) s =
    elim (Bool-cases (has_key s.ping_start_timestamp sent)) [
      | inr unknown ↦ rw unknown (quiet-Accounts s s [] refl refl)
      | inl known ↦ rw known λ ts v. (
        record {
          timed = ended s ts sent v;
          distinct = is_distinct-delete_key s.ping_start_timestamp sent v.distinct;
        },
        omega (arith, length-delete_key ts sent (v.timed sent known)),
      )
    ]

-- ===== src/Transport/Steps.antt =====
-- Any sequence of calls and callbacks of helper/Transport.js, and what holds after it.
use webtransport_gos.Prelude.{
  ℕ, ◌≡◌, ◌≢◌, refl, none, some, List, arith, inl, inr, Bool-cases, Option-cases,
}
use webtransport_gos.Transport.{
  Transport, Options, TransportStatus, Server, Session, Socket, Effect, opened, closed, closing,
  new_transport, next_start, connect, complete, message, socket_closed, send, close, closed_later,
  reconnect, connect_now, connect_again, is_connecting, is_closing,
}
use webtransport_gos.Transport.Queue.{
  IsSound, new_transport-IsSound, next_start-IsSound, connect-IsSound, complete-IsSound,
  socket_closed-IsSound, send-IsSound,
}
use webtransport_gos.Transport.Closing.{flush_never_ends, List-cases}

-- One call by the owner, or one callback of a socket or a timer, with any closure: late and repeated
-- callbacks included.
pub data Step {D : Type 0} (o : Options) (t t' : Transport D) : Type 0 where
  connects : (server : Server) (ps : List Server) → t' ≡ (connect server ps t).0 → Step o t t'
  starts : (c : Session) → t' ≡ (next_start c t).0 → Step o t t'
  completes :
      (c : Session) (s : Socket) (server : Server) (result : TransportStatus)
      → t' ≡ (complete o c s server result t).0
      → Step o t t'
  receives : (d : D) → t' ≡ (message d t).0 → Step o t t'
  loses :
      (c : Session) (s : Socket) (server : Server)
      → t' ≡ (socket_closed o c s server t).0
      → Step o t t'
  sends : (d : D) → t' ≡ (send o d t).0 → Step o t t'
  closes : (fuel : ℕ) (out : List (Effect D)) → close fuel o t ≡ some (t', out) → Step o t t'
  closes_late : (s : Socket) → t' ≡ (closed_later s t).0 → Step o t t'
  reconnects :
      (fuel : ℕ) (out : List (Effect D)) → reconnect fuel o t ≡ some (t', out) → Step o t t'
  connects_late : (out : List (Effect D)) → connect_now t ≡ some (t', out) → Step o t t'

pub data Reach {D : Type 0} (o : Options) : Transport D → Type 0 where
  start : Reach o new_transport
  step : {t t' : Transport D} → Reach o t → Step o t t' → Reach o t'

module _ {D : Type 0} (o : Options) (t : Transport D) (v : IsSound o t) where
  message-IsSound : (d : D) → IsSound o (message d t).0
  unfolding message
  message-IsSound d = ground (arith, v.has_socket, v.sent, v.bounded)

  closed_later-IsSound : (s : Socket) → IsSound o (closed_later s t).0
  unfolding closed_later
  closed_later-IsSound s = ground (arith, v.has_socket, v.sent, v.bounded)

  -- A call of `close` that comes back has queued nothing.
  pub close-IsSound :
      (fuel : ℕ) (t' : Transport D) (out : List (Effect D))
      → close fuel o t ≡ some (t', out)
      → IsSound o t' × (t'.status ≢ opened) × (t'.queue ≡ t.queue)
  unfolding close
  close-IsSound fuel t' out h = elim (List-cases t.queue) [
    | inl e ↦ ground (arith, v.bounded)
    | inr (d, ds, e) ↦
        let stuck =
          flush_never_ends fuel o (record t { socket = none; status = closing }) refl
            (λ n. cc (e, n)) in
        ground (arith, v.bounded, stuck)
  ]

  connect_again-IsSound :
      (t' : Transport D) (out : List (Effect D)) → connect_again t ≡ some (t', out) → IsSound o t'
  connect_again-IsSound t' out h = elim (Option-cases t.server) [
    | inl e ↦ ground arith
    | inr (server, e) ↦ ground (arith, connect-IsSound o server t.proxys t v)
  ]

connect_now-IsSound :
    {D : Type 0} (o : Options) (t t' : Transport D) (out : List (Effect D))
    → IsSound o t
    → connect_now t ≡ some (t', out)
    → IsSound o t'
unfolding connect_now
connect_now-IsSound o t t' out v h =
    connect_again-IsSound o (record t { status = closed }) (ground (arith, v.bounded)) t' out h

reconnect-IsSound :
    {D : Type 0} (o : Options) (t t' : Transport D) (fuel : ℕ) (out : List (Effect D))
    → IsSound o t
    → reconnect fuel o t ≡ some (t', out)
    → IsSound o t'
unfolding reconnect
reconnect-IsSound o t t' fuel out v h = elim (Bool-cases (is_connecting t.status)) [
  | inl busy ↦ ground (arith, v)
  | inr idle ↦ elim (Option-cases (close fuel o t)) [
    | inl e ↦ ground arith
    | inr (r, e) ↦
        let (sound, _, _) = close-IsSound o t v fuel r.0 r.1 e in
        elim (Bool-cases (is_closing r.0.status)) [
          | inl late ↦ ground (arith, sound)
          | inr now ↦ elim (Option-cases (connect_again r.0)) [
            | inl none_left ↦ ground arith
            | inr (again, e') ↦ ground (arith, connect_again-IsSound o r.0 sound again.0 again.1 e')
          ]
        ]
  ]
]

pub Step-IsSound :
    {D : Type 0} {o : Options} {t t' : Transport D} → Step o t t' → IsSound o t → IsSound o t'
Step-IsSound {o = o} {t = t} (connects server ps e) v = rw e (connect-IsSound o server ps t v)
Step-IsSound {o = o} {t = t} (starts c e) v = rw e (next_start-IsSound o c t v)
Step-IsSound {o = o} {t = t} (completes c s server result e) v =
    rw e (complete-IsSound o c s server result t v)
Step-IsSound {o = o} {t = t} (receives d e) v = rw e (message-IsSound o t v d)
Step-IsSound {o = o} {t = t} (loses c s server e) v = rw e (socket_closed-IsSound o c s server t v)
Step-IsSound {o = o} {t = t} (sends d e) v = rw e (send-IsSound o d t v)
Step-IsSound {o = o} {t = t} {t' = t'} (closes fuel out e) v = (close-IsSound o t v fuel t' out e).0
Step-IsSound {o = o} {t = t} (closes_late s e) v = rw e (closed_later-IsSound o t v s)
Step-IsSound {o = o} {t = t} {t' = t'} (reconnects fuel out e) v =
    reconnect-IsSound o t t' fuel out v e
Step-IsSound {o = o} {t = t} {t' = t'} (connects_late out e) v = connect_now-IsSound o t t' out v e

-- After any sequence of calls and callbacks an open transport has a socket and an empty queue, and
-- the queue holds at most `queue_max`, if that is positive.
pub Reach-IsSound : {D : Type 0} {o : Options} {t : Transport D} → Reach o t → IsSound o t
Reach-IsSound {o = o} start = new_transport-IsSound o
Reach-IsSound (step r s) = Step-IsSound s (Reach-IsSound r)

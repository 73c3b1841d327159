-- ===== src/Transport/Sent.antt =====
-- What each method and callback of helper/Transport.js sends, and what it leaves in the queue.
use mathlib.Core.List.{Sublist, append-nil, append_assoc}
use mathlib.Core.List.Sublist
use webtransport_gos.Prelude.{
  ℕ, ◌≡◌, refl, ap, true, ◌&&◌, none, some, List, [], ◌∷◌, ◌++◌, arith, Bool, false, ltb, ◌==◌,
  if◌then◌else◌, length, length-append, ◌+◌, ◌<◌, inl, inr, Bool-cases, Option-cases,
}
use webtransport_gos.Transport.{
  Transport, Options, TransportStatus, Server, Session, Socket, Effect, socket_send, opened,
  closing, next_start, connect, complete, message, socket_closed, send, close, reconnect,
  connect_now, connect_again, send_all, send_all_notify, shift, is_connecting, is_closing, is_open,
  close_later, failure, unset, error, closed, timed_out, connecting, connect_later,
}
use webtransport_gos.Transport.Traces.{drops, to_send}
use webtransport_gos.Transport.Queue.{IsSound}
use webtransport_gos.Transport.Closing.{flush_never_ends, List-cases}

open_status : (x : TransportStatus) → is_open x ≡ true → x ≡ opened
open_status opened e = refl
open_status unset e = cc
open_status error e = cc
open_status closed e = cc
open_status closing e = cc
open_status timed_out e = cc
open_status connecting e = cc

module _ {D : Type 0} where
  -- What goes to a socket, in order.
  abbrev pub sent : List (Effect D) → List D
  sent [] = []
  sent (socket_send s d ∷ out) = d ∷ sent out
  sent (_ ∷ out) = sent out

  pub sent-append : (xs ys : List (Effect D)) → sent (xs ++ ys) ≡ sent xs ++ sent ys
  sent-append [] ys = refl
  sent-append (x ∷ xs) ys = ground (arith, sent-append xs ys)

  sent-send_all : (s : Socket) (ds : List D) → sent (send_all s ds) ≡ ds
  sent-send_all s [] = refl
  sent-send_all s (d ∷ ds) = ap (λ xs. d ∷ xs) (sent-send_all s ds)

  sent-send_all_notify : (s : Socket) (ds : List D) → sent (send_all_notify s ds) ≡ ds
  sent-send_all_notify s [] = refl
  sent-send_all_notify s (d ∷ ds) = ap (λ xs. d ∷ xs) (sent-send_all_notify s ds)

  -- `kept` is what is left of `given` when `lost` were dropped: all of it, if the queue has no bound, and
  -- else a part of it in order.
  abbrev pub Kept : Options → ℕ → List D → List D → Type 0
  Kept o lost kept given =
      (o.queue_max ≡ 0 → kept ≡ given) × Sublist kept given × (length kept + lost ≡ length given)

  pub Kept-same : (o : Options) (xs ys : List D) → xs ≡ ys → Kept o 0 xs ys
  Kept-same o xs ys e = (λ h. e, rw e (Sublist.refl ys), omega (arith, ap length e))

  sent-failure :
      (result : TransportStatus) (server : Server) → sent (failure {D = D} result server) ≡ []
  sent-failure error server = refl
  sent-failure timed_out server = refl
  sent-failure unset server = refl
  sent-failure opened server = refl
  sent-failure closed server = refl
  sent-failure closing server = refl
  sent-failure connecting server = refl

  -- Whether an attempt fails or opens, what was queued is sent or stays.
  pub complete-sent :
      (o : Options) (c : Session) (s : Socket) (server : Server) (result : TransportStatus)
      (t : Transport D)
      → sent (complete o c s server result t).1 ++ (complete o c s server result t).0.queue
        ≡ t.queue
  unfolding complete
  complete-sent o c s server result t = ground (
    arith,
    sent-send_all s t.queue,
    sent-append (send_all_notify s t.queue) (close_later s ∷ []),
    sent-send_all_notify s t.queue,
    sent-failure result server,
    append-nil t.queue,
  )

  shift-sublist : (ds : List D) → Sublist (shift ds) ds
  shift-sublist [] = Sublist.refl []
  shift-sublist (d ∷ ds) = Sublist.cons d (Sublist.refl ds)

  length-shift : (ds : List D) → 0 < length ds → length (shift ds) + 1 ≡ length ds
  length-shift [] h = absurd (omega arith)
  length-shift (d ∷ ds) h = omega arith

  -- The queue behind a message that waits.
  room-Kept :
      (o : Options) (d : D) (ds : List D)
      → let full = ltb 0 o.queue_max && length ds == o.queue_max in
        Kept o (if full then 1 else 0) ((if full then shift ds else ds) ++ d ∷ []) (ds ++ d ∷ [])
  room-Kept o d ds = elim (Bool-cases (ltb 0 o.queue_max && length ds == o.queue_max)) [
    | inr free ↦ rw free (Kept-same o (ds ++ d ∷ []) (ds ++ d ∷ []) refl)
    | inl full ↦ rw full (
      λ h. absurd (ground (arith, h, full)),
      Sublist.append (shift-sublist ds) (Sublist.refl (d ∷ [])),
      ground (
        arith,
        full,
        length-append ds (d ∷ []),
        length-append (shift ds) (d ∷ []),
        length-shift ds,
      ),
    )
  ]

  pub send-Kept :
      (o : Options) (d : D) (t : Transport D)
      → IsSound o t
      → Kept o
          (drops o (to_send d) t)
          (sent (send o d t).1 ++ (send o d t).0.queue)
          (t.queue ++ d ∷ [])
  unfolding send
  send-Kept o d t v = elim (Bool-cases (is_open t.status)) [
    | inr waits ↦ rw waits (room-Kept o d t.queue)
    | inl goes ↦
        let is_opened : t.status ≡ opened = open_status t.status goes in
        elim (Option-cases t.socket) [
          | inl lost ↦ absurd (v.has_socket is_opened lost)
          | inr (s, held) ↦ rw (goes, held, v.sent is_opened) (Kept-same o (d ∷ []) (d ∷ []) refl)
        ]
  ]

  -- What waits is the newest of what was given.
  pub send-queue :
      (o : Options) (d : D) (t : Transport D)
      → IsSound o t
      → (front : List D) × (t.queue ++ d ∷ [] ≡ front ++ (send o d t).0.queue)
  unfolding send
  send-queue o d t v = elim (Bool-cases (is_open t.status)) [
    | inl goes ↦ let empty = v.sent (open_status t.status goes) in (d ∷ [], rw (goes, empty) refl)
    | inr waits ↦ rw waits (room (ltb 0 o.queue_max && length t.queue == o.queue_max) t.queue)
  ]
    where
      room :
          (full : Bool) (ds : List D)
          → (front : List D) × (ds ++ d ∷ [] ≡ front ++ ((if full then shift ds else ds) ++ d ∷ []))
      room false ds = ([], refl)
      room true [] = ([], refl)
      room true (x ∷ ds) = (x ∷ [], refl)

  pub connect-sent :
      (server : Server) (ps : List Server) (t : Transport D)
      → sent (connect server ps t).1 ++ (connect server ps t).0.queue ≡ t.queue
  unfolding connect next_start
  connect-sent server ps t = ground arith

  pub next_start-sent :
      (c : Session) (t : Transport D)
      → sent (next_start c t).1 ++ (next_start c t).0.queue ≡ t.queue
  unfolding next_start
  next_start-sent c t = ground arith

  pub message-sent :
      (d : D) (t : Transport D) → sent (message d t).1 ++ (message d t).0.queue ≡ t.queue
  unfolding message
  message-sent d t = ground arith

  pub socket_closed-sent :
      (o : Options) (c : Session) (s : Socket) (server : Server) (t : Transport D)
      → sent (socket_closed o c s server t).1 ++ (socket_closed o c s server t).0.queue ≡ t.queue
  unfolding socket_closed
  socket_closed-sent o c s server t =
      ground
        (arith, connect-sent server c.proxys (record t { status = unset; is_reconnect = true }))

  connect_again-sent :
      (t t' : Transport D) (out : List (Effect D))
      → connect_again t ≡ some (t', out)
      → sent out ++ t'.queue ≡ t.queue
  connect_again-sent t t' out h = elim (Option-cases t.server) [
    | inl e ↦ ground arith
    | inr (server, e) ↦ ground (arith, connect-sent server t.proxys t)
  ]

  pub connect_now-sent :
      (t t' : Transport D) (out : List (Effect D))
      → connect_now t ≡ some (t', out)
      → sent out ++ t'.queue ≡ t.queue
  unfolding connect_now
  connect_now-sent t t' out h = connect_again-sent (record t { status = closed }) t' out h

  -- A call of `close` that comes back sends nothing.
  pub close-sent :
      (fuel : ℕ) (o : Options) (t t' : Transport D) (out : List (Effect D))
      → close fuel o t ≡ some (t', out)
      → sent out ++ t'.queue ≡ t.queue
  unfolding close
  close-sent fuel o t t' out h = elim (List-cases t.queue) [
    | inl e ↦ ground arith
    | inr (d, ds, e) ↦
        let stuck =
          flush_never_ends fuel o (record t { socket = none; status = closing }) refl
            (λ n. cc (e, n)) in
        ground (arith, stuck)
  ]

  pub reconnect-sent :
      (fuel : ℕ) (o : Options) (t t' : Transport D) (out : List (Effect D))
      → reconnect fuel o t ≡ some (t', out)
      → sent out ++ t'.queue ≡ t.queue
  unfolding reconnect
  reconnect-sent fuel o t t' out h = elim (Bool-cases (is_connecting t.status)) [
    | inl busy ↦ ground arith
    | inr idle ↦ elim (Option-cases (close fuel o t)) [
      | inl e ↦ ground arith
      | inr (r, e) ↦
          let before = close-sent fuel o t r.0 r.1 e in
          elim (Bool-cases (is_closing r.0.status)) [
            | inl late ↦
                ground (arith, before, sent-append r.1 (connect_later ∷ []), append-nil (sent r.1))
            | inr now ↦ elim (Option-cases (connect_again r.0)) [
              | inl fails ↦ ground arith
              | inr (again, e') ↦
                  let after = connect_again-sent r.0 again.0 again.1 e' in
                  ground (
                    arith,
                    before,
                    after,
                    sent-append r.1 again.1,
                    append_assoc (sent r.1) (sent again.1) again.0.queue,
                  )
            ]
          ]
    ]
  ]

-- ===== src/Transport/Closing.antt =====
-- What `close` of helper/Transport.js leaves behind, and when it does not come back.
use webtransport_gos.Prelude.{
  ℕ, zero, suc, ◌≡◌, ◌≢◌, refl, true, false, none, some, List, [], ◌∷◌, ◌++◌, arith, length, ltb,
  ◌==◌, ◌&&◌, if◌then◌else◌, inl, inr, ◌⊎◌,
}
use webtransport_gos.Transport.{
  Transport, Options, Server, Session, opened, closed, closing, send, flush, close, connect,
  socket_closed, Effect, Socket, socket_detach, socket_close, clear_start, shift,
}

module _ {D : Type 0} where
  concat-ne-nil : (ds : List D) (d : D) → ds ++ d ∷ [] ≢ []
  concat-ne-nil [] d h = cc
  concat-ne-nil (x ∷ ds) d h = cc

  -- `send` on a transport that is being closed puts the data in the queue.
  send-closing :
      (o : Options) (d : D) (t : Transport D)
      → t.status ≡ closing
      → ((send o d t).0.status ≡ closing) × ((send o d t).0.queue ≢ [])
  unfolding send
  send-closing o d t h = rw h (
    refl,
    concat-ne-nil
        (if ltb 0 o.queue_max && length t.queue == o.queue_max then shift t.queue else t.queue) d,
  )

  pub List-cases : (ds : List D) → (ds ≡ []) ⊎ ((x : D) × (r : List D) × (ds ≡ x ∷ r))
  List-cases [] = inl refl
  List-cases (x ∷ r) = inr (x, r, refl)

  -- On a transport that is already closing and has something queued, the loop of `close` that
  -- should send the queue does not end on any fuel: `send` queues again what the loop took out.
  pub flush_never_ends :
      (fuel : ℕ) (o : Options) (t : Transport D)
      → t.status ≡ closing
      → t.queue ≢ []
      → flush fuel o t ≡ none
  unfolding flush
  flush_never_ends zero o t h k = refl
  flush_never_ends (suc fuel) o t h k = elim (List-cases t.queue) [
    | inl e ↦ absurd (k e)
    | inr (d, ds, e) ↦
        let (still, again) = send-closing o d (record t { queue = ds }) h in
        let ih = flush_never_ends fuel o (send o d (record t { queue = ds })).0 still again in
        ground (arith, ih)
  ]

  -- Closing a transport that has a socket and something queued hangs, for any number of rounds, if
  -- the queue should be sent on closing.
  close_hangs :
      (fuel : ℕ) (o : Options) (s : Socket) (t : Transport D)
      → t.socket ≡ some s
      → o.refresh_queue_on_close ≡ true
      → t.queue ≢ []
      → close fuel o t ≡ none
  unfolding close
  close_hangs fuel o s t hs ho hq =
      let stuck = flush_never_ends fuel o (record t { socket = none; status = closing }) refl hq in
      let pending : ltb 0 (length t.queue) ≡ true = length-pos t.queue hq in
      ground (arith, stuck, pending)
    where
      length-pos : (ds : List D) → ds ≢ [] → ltb 0 (length ds) ≡ true
      length-pos [] h = absurd (h refl)
      length-pos (d ∷ ds) h = ground arith

  -- When the options say to connect again and to send the queue on closing: a transport whose open
  -- socket is lost and that is sent a message meanwhile hangs in `close`, which does not end on any
  -- fuel.
  pub close_while_reconnecting :
      (fuel : ℕ) (o : Options) (c : Session) (s : Socket) (server : Server) (d : D)
      (t : Transport D)
      → t.status ≡ opened
      → t.socket ≡ some s
      → o.connect_on_close ≡ true
      → o.refresh_queue_on_close ≡ true
      → close fuel o (send o d (socket_closed o c s server t).0).0 ≡ none
  close_while_reconnecting fuel o c s server d t opn hs hc ho =
      close_hangs fuel o s (send o d (socket_closed o c s server t).0).0
        (unfold send socket_closed in ground arith) ho
        (unfold send socket_closed in rw (opn, hc) (concat-ne-nil _ d))

  -- `close` of a transport with no socket ends with a transport on which a pending start is
  -- cancelled and every `connect` only notes its arguments.
  pub close_without_socket :
      (fuel : ℕ) (o : Options) (t : Transport D)
      → t.socket ≡ none
      → (t' : Transport D) × (out : List (Effect D)) × (close fuel o t ≡ some (t', out))
        × (t'.next_start_timer ≡ false)
        × ((server : Server) (proxys : List Server)
            → connect server proxys t' ≡ (record t' { server = some server; proxys = proxys }, []))
  unfolding close connect
  close_without_socket fuel o t h = (
    record t { socket = none; status = closing; next_start_timer = false },
    if t.next_start_timer then clear_start ∷ [] else [],
    ground arith,
    refl,
    λ server proxys. refl,
  )

  -- Closing an open transport with nothing to send closes its socket at once, with its handlers
  -- detached first, and the transport can connect again.
  pub close_open :
      (fuel : ℕ) (o : Options) (s : Socket) (t : Transport D)
      → t.socket ≡ some s
      → t.queue ≡ []
      → t.next_start_timer ≡ false
      → close fuel o t
        ≡ some (record t { socket = none; status = closed }, socket_detach s ∷ socket_close s ∷ [])
  unfolding close
  close_open fuel o s t hs hq ht = ground arith

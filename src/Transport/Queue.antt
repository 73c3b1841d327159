-- ===== src/Transport/Queue.antt =====
-- The invariant of helper/Transport.js between two calls or callbacks, whatever their order.
use webtransport_gos.Prelude.{
  ◌-◌, ◌≤◌, ◌<◌, ◌≡◌, ◌≢◌, none, List, [], ◌∷◌, arith, length, length-append,
}
use webtransport_gos.Transport.{
  Transport, Options, TransportStatus, Server, Session, Socket, opened, new_transport, next_start,
  connect, complete, socket_closed, send, shift,
}

module _ {D : Type 0} where
  -- An open transport has a socket and nothing queued; the queue keeps to its maximum, if there is one.
  pub record IsSound (o : Options) (t : Transport D) : Type 0 where
    pub has_socket : t.status ≡ opened → t.socket ≢ none
    pub sent : t.status ≡ opened → t.queue ≡ []
    pub bounded : 0 < o.queue_max → length t.queue ≤ o.queue_max

  pub new_transport-IsSound : (o : Options) → IsSound o new_transport
  unfolding new_transport
  new_transport-IsSound o = ground arith

  pub next_start-IsSound :
      (o : Options) (c : Session) (t : Transport D) → IsSound o t → IsSound o (next_start c t).0
  unfolding next_start
  next_start-IsSound o c t v = ground (arith, v.has_socket, v.sent, v.bounded)

  pub connect-IsSound :
      (o : Options) (server : Server) (ps : List Server) (t : Transport D)
      → IsSound o t
      → IsSound o (connect server ps t).0
  unfolding connect
  connect-IsSound o server ps t v = ground (arith, v.has_socket, v.sent, v.bounded)

  pub complete-IsSound :
      (o : Options) (c : Session) (s : Socket) (server : Server) (result : TransportStatus)
      (t : Transport D)
      → IsSound o t
      → IsSound o (complete o c s server result t).0
  unfolding complete
  complete-IsSound o c s server result t v = ground (arith, v.has_socket, v.sent, v.bounded)

  pub socket_closed-IsSound :
      (o : Options) (c : Session) (s : Socket) (server : Server) (t : Transport D)
      → IsSound o t
      → IsSound o (socket_closed o c s server t).0
  unfolding socket_closed
  socket_closed-IsSound o c s server t v = ground (arith, v.has_socket, v.sent, v.bounded)

  length-shift : (ds : List D) → length (shift ds) ≡ length ds - 1
  length-shift [] = omega arith
  length-shift (d ∷ ds) = omega arith

  pub send-IsSound :
      (o : Options) (d : D) (t : Transport D) → IsSound o t → IsSound o (send o d t).0
  unfolding send
  send-IsSound o d t v = ground (
    arith,
    v.has_socket,
    v.sent,
    v.bounded,
    length-shift t.queue,
    length-append t.queue (d ∷ []),
    length-append (shift t.queue) (d ∷ []),
  )

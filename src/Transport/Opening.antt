-- ===== src/Transport/Opening.antt =====
-- `connect` of helper/Transport.js when one of its attempts succeeds.
use webtransport_gos.Prelude.{
  suc, ◌+◌, ◌-◌, ◌≤◌, ◌<◌, ◌≡◌, refl, ap, sym, ◌∙◌, true, false, some, List, [], ◌∷◌, ◌++◌, arith,
  length, All, ltb, if◌then◌else◌, get_elem?, take,
}
use mathlib.Core.Path.{subst}
use webtransport_gos.Transport.{
  Transport, Outcome, Options, TransportStatus, Server, Session, Socket, opened, connecting,
  connect, complete, is_open, new_socket, on_open, send_all, complete_open,
}
use webtransport_gos.Transport.Attempts.{is_idle, settle}
use webtransport_gos.Transport.Rounds.{repeat, attempts, left, Same, fails_on, connect-left}

module _ {D : Type 0} where
  -- The servers were tried up to the one that opened. The transport is open on its socket, its queue is
  -- sent after the owner is told of this server, and its rounds start afresh.
  pub record IsOpened (o : Options) (servers : List Server) (server : Server) (s : Socket)
      (t : Transport D) (r : List Server × Outcome D) : Type 0 where
    pub tried : r.0 ≡ servers
    pub status : r.1.0.status ≡ opened
    pub socket : r.1.0.socket ≡ some s
    pub queue : r.1.0.queue ≡ []
    pub retry_index : r.1.0.retry_index ≡ (if ltb 0 o.retry_count then 0 else t.retry_index)
    pub out : r.1.1 ≡ on_open server t.is_reconnect ∷ send_all s t.queue

  opens_last :
      (o : Options) (c : Session) (s : Socket) (server : Server) (t : Transport D)
      → t.status ≡ connecting
      → settle (complete o c s server opened t) ≡ complete_open o s server t
  unfolding complete complete_open
  opens_last o c s server t h = rw h refl

  -- What an attempt that fails keeps is kept for the one that opens.
  Same-IsOpened :
      (o : Options) (servers : List Server) (server : Server) (s : Socket) (t t' : Transport D)
      (r : List Server × Outcome D)
      → Same o t t'
      → IsOpened o servers server s t' r
      → IsOpened o servers server s t r
  Same-IsOpened o servers server s t t' r kept v = record {
    tried = v.tried;
    status = v.status;
    socket = v.socket;
    queue = v.queue;
    retry_index = ground (arith, v.retry_index, kept.retry_index);
    out = v.out ∙ cc (kept.is_reconnect, kept.queue);
  }

  attempts-IsOpened :
      (fails : List TransportStatus) (o : Options) (c : Session) (s : Socket) (server : Server)
      (others : List Server) (t : Transport D)
      → t.status ≡ connecting
      → All (λ x. is_open x ≡ false) fails
      → 0 < length c.servers
      → c.tried ≤ length c.servers
      → left o c t ≡ others
      → length fails ≤ length others
      → (winner : Server) × (get_elem? (server ∷ others) (length fails) ≡ some winner)
        × IsOpened o
            (take (suc (length fails)) (server ∷ others))
            winner
            (s + length fails)
            t
            (attempts o s (fails ++ opened ∷ []) (t, new_socket c (some server) ∷ []))
  unfolding attempts complete_open
  attempts-IsOpened [] o c s server others t h f some_server inside e enough =
      let ended = ap (attempts o (s + 1) []) (opens_last o c s server t h) in
      let same_socket : s ≡ s + 0 = omega arith in
      (
        server,
        refl,
        record {
          tried = ap (λ r. server ∷ r.0) ended;
          status = ap (λ r. r.1.0.status) ended;
          socket = ap (λ r. r.1.0.socket) ended ∙ ap some same_socket;
          queue = ap (λ r. r.1.0.queue) ended;
          retry_index = ap (λ r. r.1.0.retry_index) ended;
          out =
              ap (λ r. r.1.1) ended
              ∙ ap (λ k. on_open server t.is_reconnect ∷ send_all k t.queue) same_socket;
        },
      )
  attempts-IsOpened (r ∷ fails) o c s server [] t h f some_server inside e enough =
      absurd (omega arith)
  attempts-IsOpened (r ∷ fails) o c s server (next ∷ others) t h (f, fs) some_server inside e
        enough =
      let (c', t', run, kept, e', some_server', inside') =
        fails_on o c s server next others r t h f some_server inside e in
      let (winner, at, ih) =
        attempts-IsOpened fails o c' (s + 1) next others t' kept.status fs some_server' inside' e'
          (omega arith) in
      let ih₂ = Same-IsOpened o _ winner _ t t' _ kept ih in
      let ended = ap (attempts o (s + 1) (fails ++ opened ∷ [])) run in
      let same_socket : s + 1 + length fails ≡ s + length (r ∷ fails) = omega arith in
      (
        winner,
        at,
        record {
          tried = ap (λ r. server ∷ r.0) ended ∙ ap (λ xs. server ∷ xs) ih₂.tried;
          status = ap (λ r. r.1.0.status) ended ∙ ih₂.status;
          socket = ap (λ r. r.1.0.socket) ended ∙ ih₂.socket ∙ ap some same_socket;
          queue = ap (λ r. r.1.0.queue) ended ∙ ih₂.queue;
          retry_index = ap (λ r. r.1.0.retry_index) ended ∙ ih₂.retry_index;
          out =
              ap (λ r. r.1.1) ended
              ∙ ih₂.out
              ∙ ap (λ k. on_open winner t.is_reconnect ∷ send_all k t.queue) same_socket;
        },
      )

  -- `connect` of an idle transport, when some attempts fail, fewer than there are servers in all rounds
  -- that are left, and the next one opens: the servers were tried in their order, round after round, up to
  -- this one; the transport is open on the socket of this attempt with its rounds at the start, if it
  -- counts them; the owner is told of the server that opened, and what was queued is sent to its socket in
  -- order and is no longer queued.
  pub connect_opens :
      (fails : List TransportStatus) (o : Options) (s : Socket) (server : Server)
      (proxys : List Server) (t : Transport D)
      → is_idle t.status ≡ true
      → All (λ x. is_open x ≡ false) fails
      → let all = repeat (o.retry_count - 1 - t.retry_index + 1) (server ∷ proxys) in
        length fails < length all
        → (winner : Server) × (get_elem? all (length fails) ≡ some winner)
          × IsOpened o
              (take (suc (length fails)) all)
              winner
              (s + length fails)
              t
              (attempts o s (fails ++ opened ∷ []) (connect server proxys t))
  connect_opens fails o s server proxys t h f enough =
      let (c, t', run, kept, tried, some_server, inside) = connect-left o server proxys t h in
      let (winner, at, v) =
        attempts-IsOpened fails o c s server (left o c t') t' kept.status f some_server inside refl
          (omega (arith, enough, ap length tried)) in
      let after = sym (ap (attempts o s (fails ++ opened ∷ [])) run) in
      (
        winner,
        ap (λ xs. get_elem? xs (length fails)) (sym tried) ∙ at,
        subst
            (λ xs.
              IsOpened o (take (suc (length fails)) xs) winner (s + length fails) t
                (attempts o s (fails ++ opened ∷ []) (connect server proxys t)))
            tried
            (subst (IsOpened o _ winner (s + length fails) t) after
              (Same-IsOpened o _ winner _ t t' _ kept v)),
      )

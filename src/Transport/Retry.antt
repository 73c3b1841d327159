-- ===== src/Transport/Retry.antt =====
-- How often `connect` of helper/Transport.js tries before it gives up.
use webtransport_gos.Prelude.{
  ◌+◌, ◌-◌, ◌≤◌, ◌<◌, ◌≡◌, refl, ap, sym, ◌∙◌, true, false, some, List, [], ◌∷◌, arith, length, All,
  append-nil,
}
use mathlib.Core.Path.{subst}
use webtransport_gos.Transport.{
  Transport, Outcome, Options, TransportStatus, Server, Session, Socket, connecting, unset, connect,
  is_open, new_socket, failure,
}
use webtransport_gos.Transport.Attempts.{is_idle}
use webtransport_gos.Transport.Rounds.{
  repeat, attempts, left, fails_on, fails_last, attempts_end, connect-left,
}

-- The last of a list, or `d`.
abbrev pub last {ℓ} : {A : Type ℓ} → A → List A → A
last d [] = d
last d (x ∷ xs) = last x xs

module _ {D : Type 0} where
  -- The servers were tried in this order, and with the last of them the transport gave up: it has the
  -- status of the last attempt, the owner is told of that server and nothing else is done, and the rounds
  -- are spent.
  pub record GaveUp (o : Options) (servers : List Server) (results : List TransportStatus)
      (r : List Server × Outcome D) : Type 0 where
    pub tried : r.0 ≡ servers
    pub status : r.1.0.status ≡ last unset results
    pub told : r.1.1 ≡ failure (last unset results) (last 0 servers)
    pub spent : o.retry_count ≤ r.1.0.retry_index

  attempts-GaveUp :
      (results : List TransportStatus) (o : Options) (c : Session) (s : Socket) (server : Server)
      (others : List Server) (result : TransportStatus) (t : Transport D)
      → t.status ≡ connecting
      → All (λ x. is_open x ≡ false) (result ∷ results)
      → 0 < length c.servers
      → c.tried ≤ length c.servers
      → left o c t ≡ others
      → length results ≡ length others
      → GaveUp o
          (server ∷ others)
          (result ∷ results)
          (attempts o s (result ∷ results) (t, new_socket c (some server) ∷ []))
  unfolding attempts
  attempts-GaveUp [] o c s server (next ∷ others) result t h f some_server inside e same =
      absurd (omega arith)
  attempts-GaveUp (r ∷ results) o c s server [] result t h f some_server inside e same =
      absurd (omega arith)
  attempts-GaveUp [] o c s server [] result t h (f, fs) some_server inside e same =
      let (t', run, status, spent) = fails_last o c s server result t h f some_server inside e in
      let ended = ap (attempts o (s + 1) []) run ∙ attempts_end o (s + 1) [] t' result server in
      record {
        tried = ap (λ r. server ∷ r.0) ended;
        status = ap (λ r. r.1.0.status) ended ∙ status;
        told = ap (λ r. r.1.1) ended;
        spent =
            subst (λ (r : List Server × Outcome D). o.retry_count ≤ r.1.0.retry_index) (sym ended)
              spent;
      }
  attempts-GaveUp (r ∷ results) o c s server (next ∷ others) result t h (f, fs) some_server inside e
        same =
      let (c', t', run, kept, e', some_server', inside') =
        fails_on o c s server next others result t h f some_server inside e in
      let ih =
        attempts-GaveUp results o c' (s + 1) next others r t' kept.status fs some_server' inside' e'
          (omega arith) in
      let ended = ap (attempts o (s + 1) (r ∷ results)) run in
      record {
        tried = ap (λ r. server ∷ r.0) ended ∙ ap (λ xs. server ∷ xs) ih.tried;
        status = ap (λ r. r.1.0.status) ended ∙ ih.status;
        told = ap (λ r. r.1.1) ended ∙ ih.told;
        spent =
            subst (λ (r : List Server × Outcome D). o.retry_count ≤ r.1.0.retry_index) (sym ended)
              ih.spent;
      }

  connect-GaveUp :
      (results : List TransportStatus) (o : Options) (s : Socket) (server : Server)
      (proxys : List Server) (t : Transport D) (all : List Server)
      → is_idle t.status ≡ true
      → All (λ x. is_open x ≡ false) results
      → repeat (o.retry_count - 1 - t.retry_index + 1) (server ∷ proxys) ≡ all
      → length results ≡ length all
      → GaveUp o all results (attempts o s results (connect server proxys t))
  connect-GaveUp [] o s server proxys t all h f e same =
      let (c, t', run, kept, tried, some_server, inside) = connect-left o server proxys t h in
      absurd (omega (arith, same, ap length (tried ∙ e)))
  connect-GaveUp (r ∷ results) o s server proxys t all h f e same =
      let (c, t', run, kept, tried, some_server, inside) = connect-left o server proxys t h in
      let enough = ap length (tried ∙ e) in
      subst (λ xs. GaveUp o xs (r ∷ results) (attempts o s (r ∷ results) (connect server proxys t)))
        (tried ∙ e)
        (subst
          (λ out. GaveUp o (server ∷ left o c t') (r ∷ results) (attempts o s (r ∷ results) out))
          (sym run)
          (attempts-GaveUp results o c s server (left o c t') r t' kept.status f some_server inside
            refl (omega (arith, same, enough))))

  -- `connect` of an idle transport, when as many attempts as there are servers in all rounds that are left
  -- fail, each with a result of its own: every server is tried in its order, once in each of these rounds,
  -- the transport ends with the status of the last attempt and its rounds spent, and the owner is told of
  -- the last server and of nothing before.
  pub connect_gives_up :
      (results : List TransportStatus) (o : Options) (s : Socket) (server : Server)
      (proxys : List Server) (t : Transport D)
      → is_idle t.status ≡ true
      → All (λ x. is_open x ≡ false) results
      → length results ≡ length (repeat (o.retry_count - 1 - t.retry_index + 1) (server ∷ proxys))
      → GaveUp o
          (repeat (o.retry_count - 1 - t.retry_index + 1) (server ∷ proxys))
          results
          (attempts o s results (connect server proxys t))
  connect_gives_up results o s server proxys t h f same =
      connect-GaveUp results o s server proxys t _ h f refl same

  -- After that, with a last attempt that failed and did not close, the rounds stay spent: the next
  -- `connect`, to the same or other servers, whose attempts fail again, tries each server once and gives
  -- up.
  pub connect_after_giving_up :
      (results again : List TransportStatus) (o : Options) (s s' : Socket) (server server' : Server)
      (proxys proxys' : List Server) (t : Transport D)
      → is_idle t.status ≡ true
      → All (λ x. is_open x ≡ false) results
      → length results ≡ length (repeat (o.retry_count - 1 - t.retry_index + 1) (server ∷ proxys))
      → is_idle (last unset results) ≡ true
      → All (λ x. is_open x ≡ false) again
      → length again ≡ length (server' ∷ proxys')
      → let t₁ = (attempts o s results (connect server proxys t)).1.0 in
        GaveUp o (server' ∷ proxys') again (attempts o s' again (connect server' proxys' t₁))
  connect_after_giving_up results again o s s' server server' proxys proxys' t h f same idle f'
        same' =
      let first = connect_gives_up results o s server proxys t h f same in
      let t₁ = (attempts o s results (connect server proxys t)).1.0 in
      let no_round : o.retry_count - 1 - t₁.retry_index + 1 ≡ 1 = omega (arith, first.spent) in
      connect-GaveUp again o s' server' proxys' t₁ (server' ∷ proxys')
        (ap is_idle first.status ∙ idle) f'
        (ap (λ n. repeat n (server' ∷ proxys')) no_round ∙ append-nil (server' ∷ proxys')) same'

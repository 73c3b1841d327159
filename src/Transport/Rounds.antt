-- ===== src/Transport/Rounds.antt =====
-- All the attempts of one call of `connect` of helper/Transport.js: each callback is given the server and
-- the socket that were tried.
use webtransport_gos.Prelude.{
  ℕ, zero, suc, ◌+◌, ◌-◌, ◌≤◌, ◌<◌, ◌≡◌, refl, ap, sym, ◌∙◌, true, false, some, List, [], ◌∷◌, ◌++◌,
  arith, length, drop, get_elem?,
}
use native.Mathlib.Decide.{dec_lt}
use webtransport_gos.Transport.{
  Transport, Outcome, Options, TransportStatus, Server, Session, Socket, opened, closed, closing,
  connecting, unset, error, timed_out, connect, complete, is_open, new_socket, failure,
}
use webtransport_gos.Transport.Attempts.{
  settle, counted, settle-next_end, next_server, next_round, last_attempt, is_idle, connect_first,
}

-- A list so many times over.
abbrev pub repeat : ℕ → List Server → List Server
repeat zero xs = []
repeat (suc n) xs = xs ++ repeat n xs

pub drop_next :
    (xs : List Server) (n : ℕ)
    → n < length xs
    → (x : Server) × (get_elem? xs n ≡ some x) × (drop n xs ≡ x ∷ drop (n + 1) xs)
drop_next [] n h = absurd (omega arith)
drop_next (x ∷ xs) zero h = (x, refl, refl)
drop_next (x ∷ xs) (suc n) h =
    let (y, e, f) = drop_next xs n (omega arith) in
    (y, e, f ∙ ap (λ k. y ∷ drop k (x ∷ xs)) {x = suc (n + 1)} {y = suc n + 1} (omega arith))

pub drop_all : (xs : List Server) (n : ℕ) → length xs ≤ n → drop n xs ≡ []
drop_all [] zero h = refl
drop_all [] (suc n) h = refl
drop_all (x ∷ xs) zero h = absurd (omega arith)
drop_all (x ∷ xs) (suc n) h = drop_all xs n (omega arith)

module _ {D : Type 0} where
  -- The attempts of `connect` end with these results, one after the other; sockets are counted from
  -- `s` on. The servers that were tried, and what comes of the last attempt.
  unfoldable pub attempts :
      Options → Socket → List TransportStatus → Outcome D → List Server × Outcome D
  attempts o s (result ∷ results) (t, new_socket c (some server) ∷ []) =
      let rest = attempts o (s + 1) results (settle (complete o c s server result t)) in
      (server ∷ rest.0, rest.1)
  attempts o s results r = ([], r)

  -- The servers that are left: those of this round, and all of them for each round after it.
  abbrev pub left : Options → Session → Transport D → List Server
  left o c t = drop c.tried c.servers ++ repeat (o.retry_count - 1 - t.retry_index) c.servers

  -- What a failed attempt keeps.
  pub record Same (o : Options) (t t' : Transport D) : Type 0 where
    pub status : t'.status ≡ connecting
    pub queue : t'.queue ≡ t.queue
    pub is_reconnect : t'.is_reconnect ≡ t.is_reconnect
    pub retry_index : o.retry_count ≡ 0 → t'.retry_index ≡ t.retry_index

  -- An attempt fails and the next server is tried.
  pub fails_on :
      (o : Options) (c : Session) (s : Socket) (server next : Server) (more : List Server)
      (result : TransportStatus) (t : Transport D)
      → t.status ≡ connecting
      → is_open result ≡ false
      → 0 < length c.servers
      → c.tried ≤ length c.servers
      → left o c t ≡ next ∷ more
      → (c' : Session) × (t' : Transport D) × (settle (complete o c s server result t)
          ≡ (t', new_socket c' (some next) ∷ []))
        × Same o t t'
        × (left o c' t' ≡ more)
        × (0 < length c'.servers)
        × (c'.tried ≤ length c'.servers)
  fails_on o c s server next more result t h fails some_server inside e =
      elim (dec_lt c.tried (length c.servers)) [
        | yes p ↦
            let (x, at, split) = drop_next c.servers c.tried p in
            let run =
              ap settle (next_server o c s server result t h fails p) ∙ settle-next_end o c t h in
            let whole : x
                  ∷ (drop (c.tried + 1) c.servers
                      ++ repeat (o.retry_count - 1 - t.retry_index) c.servers)
                ≡ next ∷ more =
              rw split at e in
            (
              record c { tried = c.tried + 1 },
              record t { next_start_timer = false },
              cc (run, at, whole),
              record { status = h; queue = refl; is_reconnect = refl; retry_index = λ z. refl },
              cc whole,
              some_server,
              omega arith,
            )
        | no p ↦
            let spent = drop_all c.servers c.tried (omega arith) in
            let again = counted o t in
            let first = record c { tried = 0 } in
            let rounds_left : repeat (o.retry_count - 1 - t.retry_index) c.servers ≡ next ∷ more =
              rw spent at e in
            elim (dec_lt t.retry_index (o.retry_count - 1)) [
              | no q ↦
                  let none_left : o.retry_count - 1 - t.retry_index ≡ 0 = omega arith in
                  absurd (cc (rw none_left at rounds_left))
              | yes q ↦
                  let (x, at, split) = drop_next c.servers 0 some_server in
                  let counts : again.retry_index ≡ t.retry_index + 1 =
                    unfold counted in ground arith in
                  let one_less : o.retry_count - 1 - t.retry_index
                      ≡ suc (o.retry_count - 1 - again.retry_index) =
                    omega (arith, counts) in
                  let run =
                    ap settle (next_round o c s server result t h fails (omega arith) q)
                    ∙ settle-next_end o first again (unfold counted in h) in
                  let whole : x
                        ∷ (drop 1 c.servers
                            ++ repeat (o.retry_count - 1 - again.retry_index) c.servers)
                      ≡ next ∷ more =
                    sym (
                      ap (λ ys. ys ++ repeat (o.retry_count - 1 - again.retry_index) c.servers)
                        split)
                    ∙ (rw one_less at rounds_left) in
                  (
                    record first { tried = 0 + 1 },
                    record again { next_start_timer = false },
                    cc (run, at, whole),
                    unfold counted in
                        record {
                          status = h;
                          queue = refl;
                          is_reconnect = refl;
                          retry_index = λ z. ground arith;
                        },
                    cc whole,
                    some_server,
                    omega arith,
                  )
            ]
      ]

  -- The last attempt fails.
  pub fails_last :
      (o : Options) (c : Session) (s : Socket) (server : Server) (result : TransportStatus)
      (t : Transport D)
      → t.status ≡ connecting
      → is_open result ≡ false
      → 0 < length c.servers
      → c.tried ≤ length c.servers
      → left o c t ≡ []
      → (t' : Transport D) × (settle (complete o c s server result t) ≡ (t', failure result server))
        × (t'.status ≡ result)
        × (o.retry_count ≤ t'.retry_index)
  fails_last o c s server result t h fails some_server inside e =
      elim (dec_lt c.tried (length c.servers)) [
        | yes p ↦ let (x, at, split) = drop_next c.servers c.tried p in absurd (cc (rw split at e))
        | no p ↦
            let spent = drop_all c.servers c.tried (omega arith) in
            let no_rounds : repeat (o.retry_count - 1 - t.retry_index) c.servers ≡ [] =
              rw spent at e in
            elim (dec_lt t.retry_index (o.retry_count - 1)) [
              | yes q ↦
                  let one_more : o.retry_count - 1 - t.retry_index
                      ≡ suc (o.retry_count - 1 - t.retry_index - 1) =
                    omega arith in
                  let (x, at, split) = drop_next c.servers 0 some_server in
                  let again : c.servers ++ repeat (o.retry_count - 1 - t.retry_index - 1) c.servers
                      ≡ [] =
                    rw one_more at no_rounds in
                  absurd (
                    cc (
                      sym (
                        ap (λ ys. ys ++ repeat (o.retry_count - 1 - t.retry_index - 1) c.servers)
                          split)
                      ∙ again))
              | no q ↦ (
                record (counted o t) { status = result },
                ap settle (last_attempt o c s server result t h fails (omega arith) (omega arith))
                    ∙ settled (record (counted o t) { status = result }) result,
                refl,
                unfold counted in ground arith,
              )
            ]
      ]
    where
      settled :
          (t' : Transport D) (x : TransportStatus)
          → settle (t', failure x server) ≡ (t', failure x server)
      settled t' unset = refl
      settled t' opened = refl
      settled t' error = refl
      settled t' closed = refl
      settled t' closing = refl
      settled t' timed_out = refl
      settled t' connecting = refl

  pub attempts_end :
      (o : Options) (s : Socket) (results : List TransportStatus) (t : Transport D)
      (result : TransportStatus) (server : Server)
      → attempts o s results (t, failure result server) ≡ ([], (t, failure result server))
  unfolding attempts
  attempts_end o s [] t x server = refl
  attempts_end o s (r ∷ results) t unset server = refl
  attempts_end o s (r ∷ results) t opened server = refl
  attempts_end o s (r ∷ results) t error server = refl
  attempts_end o s (r ∷ results) t closed server = refl
  attempts_end o s (r ∷ results) t closing server = refl
  attempts_end o s (r ∷ results) t timed_out server = refl
  attempts_end o s (r ∷ results) t connecting server = refl

  -- `connect` of an idle transport tries its first server, and these are left.
  pub connect-left :
      (o : Options) (server : Server) (proxys : List Server) (t : Transport D)
      → is_idle t.status ≡ true
      → (c : Session) × (t' : Transport D) × (connect server proxys t
          ≡ (t', new_socket c (some server) ∷ []))
        × Same o t t'
        × (server ∷ left o c t' ≡ repeat (o.retry_count - 1 - t.retry_index + 1) (server ∷ proxys))
        × (0 < length c.servers)
        × (c.tried ≤ length c.servers)
  connect-left o server proxys t h = (
    record { proxys = proxys; servers = server ∷ proxys; tried = 1 },
    record t {
      server = some server;
      proxys = proxys;
      status = connecting;
      next_start_timer = false;
    },
    connect_first server proxys t h,
    record { status = refl; queue = refl; is_reconnect = refl; retry_index = λ z. refl },
    sym (
        ap (λ n. repeat n (server ∷ proxys)) {y = suc (o.retry_count - 1 - t.retry_index)}
          (omega arith)),
    omega arith,
    omega arith,
  )

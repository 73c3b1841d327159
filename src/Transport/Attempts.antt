-- ===== src/Transport/Attempts.antt =====
-- One attempt of `connect` of helper/Transport.js that fails, and what is left after it.
use webtransport_gos.Prelude.{
  ◌+◌, ◌-◌, ◌≤◌, ◌<◌, ◌≡◌, refl, Bool, true, false, some, List, [], ◌∷◌, arith, length, ltb,
  if◌then◌else◌, inl, inr, ◌⊎◌, get_elem?, Bool-cases,
}
use webtransport_gos.Transport.{
  Transport, Outcome, Options, TransportStatus, Server, Socket, Session, opened, closed, closing,
  connecting, unset, error, timed_out, next_start, next_end, connect, complete, complete_failed,
  is_open, new_socket, start_later, failure,
}

abbrev pub is_idle : TransportStatus → Bool
is_idle opened = false
is_idle connecting = false
is_idle closing = false
is_idle _ = true

idle_cases :
    (x : TransportStatus)
    → is_idle x ≡ true
    → (x ≡ unset) ⊎ ((x ≡ error) ⊎ ((x ≡ closed) ⊎ (x ≡ timed_out)))
idle_cases unset _ = inl refl
idle_cases error _ = inr (inl refl)
idle_cases closed _ = inr (inr (inl refl))
idle_cases timed_out _ = inr (inr (inr refl))
idle_cases opened h = ground arith
idle_cases closing h = ground arith
idle_cases connecting h = ground arith

pub idle-failed : (x : TransportStatus) → is_idle x ≡ true → is_open x ≡ false
idle-failed opened h = ground arith
idle-failed unset _ = refl
idle-failed error _ = refl
idle-failed closed _ = refl
idle-failed timed_out _ = refl
idle-failed closing _ = refl
idle-failed connecting _ = refl

module _ {D : Type 0} where
  -- What a callback asked for, once the timer of `nextEnd` has fired, if it was set.
  abbrev pub settle : Outcome D → Outcome D
  settle (t, start_later c ∷ []) = next_start c t
  settle r = r

  -- The next socket, and what is left once the timer has fired.
  abbrev pub opens : Session → Transport D → Outcome D
  opens c t = (
    record t { next_start_timer = false },
    new_socket (record c { tried = c.tried + 1 }) (get_elem? c.servers c.tried) ∷ [],
  )

  pub settle-next_end :
      (o : Options) (c : Session) (t : Transport D)
      → t.status ≡ connecting
      → settle (next_end o c t) ≡ opens c t
  unfolding next_end next_start
  settle-next_end o c t h = elim (Bool-cases (ltb 0 o.interval)) [
    | inl later ↦ rw (later, h) (ground arith)
    | inr now ↦ rw (now, h)
  ]

  unfoldable pub counted : Options → Transport D → Transport D
  counted o t = record t {
    retry_index = if ltb 0 o.retry_count then t.retry_index + 1 else t.retry_index;
  }

  pub connect_first :
      (server : Server) (proxys : List Server) (t : Transport D)
      → is_idle t.status ≡ true
      → connect server proxys t
        ≡ opens
            (record { proxys = proxys; servers = server ∷ proxys; tried = 0 })
            (record t { server = some server; proxys = proxys; status = connecting })
  unfolding connect next_start
  connect_first server proxys t h = elim (idle_cases t.status h) [
    | inl e ↦ rw e refl
    | inr (inl e) ↦ rw e refl
    | inr (inr (inl e)) ↦ rw e refl
    | inr (inr (inr e)) ↦ rw e refl
  ]

  module _ (o : Options) (c : Session) (s : Socket) (server : Server) (result : TransportStatus)
      (t : Transport D) (h : t.status ≡ connecting) (fails : is_open result ≡ false) where
    pub next_server : c.tried < length c.servers → complete o c s server result t ≡ next_end o c t
    unfolding complete complete_failed
    next_server p = rw (h, fails) (ground arith)

    pub next_round :
        c.tried ≡ length c.servers
        → t.retry_index < o.retry_count - 1
        → complete o c s server result t ≡ next_end o (record c { tried = 0 }) (counted o t)
    unfolding complete complete_failed counted
    next_round p q = rw (h, fails) (ground arith)

    pub last_attempt :
        c.tried ≡ length c.servers
        → o.retry_count - 1 ≤ t.retry_index
        → complete o c s server result t
          ≡ (record (counted o t) { status = result }, failure result server)
    unfolding complete complete_failed counted
    last_attempt p q = rw (h, fails) (ground arith)

-- ===== src/Transport/Traces.antt =====
-- Runs of helper/Transport.js: calls of the owner and callbacks of the runtime in any order, with what
-- they do to the outside.
use webtransport_gos.Prelude.{
  ℕ, ◌≡◌, Option, none, some, List, [], ◌∷◌, ◌++◌, Option-cases, inl, inr, ◌+◌, not, ◌&&◌, ltb,
  ◌==◌, length, if◌then◌else◌,
}
use webtransport_gos.Transport.{
  Transport, is_open, Outcome, Options, TransportStatus, Server, Session, Socket, Effect,
  next_start, connect, complete, message, socket_closed, send, close, closed_later, reconnect,
  connect_now,
}
use webtransport_gos.Transport.Queue.{IsSound}
use webtransport_gos.Transport.Steps.{
  Step, connects, starts, completes, receives, loses, sends, closes, closes_late, reconnects,
  connects_late, Step-IsSound,
}

-- A call or a callback, with its closure; the number of a call of `close` is its fuel.
pub data Action (D : Type 0) : Type 0 where
  to_connect : Server → List Server → Action D
  to_start : Session → Action D
  to_complete : Session → Socket → Server → TransportStatus → Action D
  to_receive : D → Action D
  to_lose : Session → Socket → Server → Action D
  to_send : D → Action D
  to_close : ℕ → Action D
  to_close_late : Socket → Action D
  to_reconnect : ℕ → Action D
  to_connect_late : Action D

module _ {D : Type 0} (o : Options) where
  -- `none` is a loop that does not end, or a throw.
  abbrev pub perform : Action D → Transport D → Option (Outcome D)
  perform (to_connect server ps) t = some (connect server ps t)
  perform (to_start c) t = some (next_start c t)
  perform (to_complete c s server result) t = some (complete o c s server result t)
  perform (to_receive d) t = some (message d t)
  perform (to_lose c s server) t = some (socket_closed o c s server t)
  perform (to_send d) t = some (send o d t)
  perform (to_close fuel) t = close fuel o t
  perform (to_close_late s) t = some (closed_later s t)
  perform (to_reconnect fuel) t = reconnect fuel o t
  perform to_connect_late t = connect_now t

  abbrev pub then_run : (Transport D → Option (Outcome D)) → Option (Outcome D) → Option (Outcome D)
  then_run later none = none
  then_run later (some (t, out)) = elim (later t) [ none ↦ none | some r ↦ some (r.0, out ++ r.1) ]

  unfoldable pub run : List (Action D) → Transport D → Option (Outcome D)
  run [] t = some (t, [])
  run (a ∷ actions) t = then_run (run actions) (perform a t)

  -- What is sent by the owner, in order.
  abbrev pub data_of : Action D → List D
  data_of (to_send d) = d ∷ []
  data_of _ = []

  abbrev pub all_data : List (Action D) → List D
  all_data [] = []
  all_data (a ∷ actions) = data_of a ++ all_data actions

  -- A message that comes while the transport is not open and its queue is full drops another one.
  abbrev pub drops : Action D → Transport D → ℕ
  drops (to_send d) t =
      if not (is_open t.status) && (ltb 0 o.queue_max && length t.queue == o.queue_max)
      then 1
      else 0
  drops _ t = 0

  abbrev pub all_drops : List (Action D) → Transport D → ℕ
  all_drops [] t = 0
  all_drops (a ∷ actions) t =
      drops a t + elim (perform a t) [ none ↦ 0 | some r ↦ all_drops actions r.0 ]

  pub perform-Step :
      (a : Action D) (t t' : Transport D) (out : List (Effect D))
      → perform a t ≡ some (t', out)
      → Step o t t'
  perform-Step (to_connect server ps) t t' out e = connects server ps (cc e)
  perform-Step (to_start c) t t' out e = starts c (cc e)
  perform-Step (to_complete c s server result) t t' out e = completes c s server result (cc e)
  perform-Step (to_receive d) t t' out e = receives d (cc e)
  perform-Step (to_lose c s server) t t' out e = loses c s server (cc e)
  perform-Step (to_send d) t t' out e = sends d (cc e)
  perform-Step (to_close fuel) t t' out e = closes fuel out e
  perform-Step (to_close_late s) t t' out e = closes_late s (cc e)
  perform-Step (to_reconnect fuel) t t' out e = reconnects fuel out e
  perform-Step to_connect_late t t' out e = connects_late out e

  pub perform-IsSound :
      (a : Action D) (t t' : Transport D) (out : List (Effect D))
      → IsSound o t
      → perform a t ≡ some (t', out)
      → IsSound o t'
  perform-IsSound a t t' out v e = Step-IsSound (perform-Step a t t' out e) v

  -- A run that comes to its end begins with an action that does.
  pub run_first :
      (a : Action D) (actions : List (Action D)) (t t' : Transport D) (out : List (Effect D))
      → run (a ∷ actions) t ≡ some (t', out)
      → (t₁ : Transport D) × (out₁ out₂ : List (Effect D)) × (perform a t ≡ some (t₁, out₁))
        × (run actions t₁ ≡ some (t', out₂))
        × (out ≡ out₁ ++ out₂)
  unfolding run
  run_first a actions t t' out e = elim (Option-cases (perform a t)) [
    | inl fails ↦ cc (fails, e)
    | inr ((t₁, out₁), goes) ↦ elim (Option-cases (run actions t₁)) [
      | inl fails ↦ cc (goes, fails, e)
      | inr ((t₂, out₂), rest) ↦
          let whole : some (t₂, out₁ ++ out₂) ≡ some (t', out) = rw (goes, rest) at e in
          (t₁, out₁, out₂, goes, cc (rest, whole), cc whole)
    ]
  ]

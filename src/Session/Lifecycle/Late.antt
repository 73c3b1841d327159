-- ===== src/Session/Lifecycle/Late.antt =====
-- `close` of helper/WebTransportWS.js while `connect` still waits.
use mathlib.Core.Path.{subst}
use webtransport_gos.Prelude.{
  ℕ, ◌≡◌, refl, true, false, List, [], ◌∷◌, ◌++◌, arith, append_assoc, append-nil,
}
use webtransport_gos.Session.Lifecycle.{
  Options, waits_writers, rejected, Life, Effect, calls_onopen, closes_transport, on_stream,
  on_writers, on_tick, close, handle_read,
}
use webtransport_gos.Session.Lifecycle.Handlers.{Reach, step, closes, gets_writers, ticks}

-- A session that is closed while its writers get ready, whatever happened before, may still call
-- `onopen`, and does so without starting a ping or a read loop.
pub opens_after_close :
    {o : Options} {l : Life} {done : List Effect}
    → Reach o l done
    → l.phase ≡ waits_writers
    → l.closed ≡ false
    → (l' : Life) × Reach o l' (done ++ closes_transport ∷ calls_onopen ∷ []) × (l'.closed ≡ true)
unfolding close on_writers handle_read on_tick
opens_after_close {o = o} {l = l} {done = done} r waits not_closed =
    let l₁ = (close l).0 in
    let l₂ = (on_writers l₁).0 in
    let l₃ = (on_tick o l₂).0 in
    let reached = step (step (step r closes) (gets_writers (still_waits waits))) (ticks due) in
    (l₃, subst (Reach o l₃) same reached, stays)
  where
    still_waits : l.phase ≡ waits_writers → (close l).0.phase ≡ waits_writers
    still_waits h = h

    due : (on_writers (close l).0).0.open_due ≡ true
    due = refl

    stays : (on_tick o (on_writers (close l).0).0).0.closed ≡ true
    stays = refl

    same :
        ((done ++ (close l).1) ++ (on_writers (close l).0).1)
          ++ (on_tick o (on_writers (close l).0).0).1
        ≡ done ++ closes_transport ∷ calls_onopen ∷ []
    same = ground (
      arith,
      not_closed,
      append-nil (done ++ closes_transport ∷ []),
      append_assoc done (closes_transport ∷ []) (calls_onopen ∷ []),
    )

-- A session that is closed while it waits for a stream rejects its `connect` when the stream comes.
rejects_after_close :
    (o : Options) (i : ℕ) (l : Life) → (on_stream o i (close l).0).phase ≡ rejected
unfolding on_stream close
rejects_after_close o i l = refl

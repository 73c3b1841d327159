-- ===== src/Session/Lifecycle/Handlers.antt =====
-- How often the handlers of helper/WebTransportWS.js are called over a run.
use webtransport_gos.Prelude.{
  ℕ, suc, ◌+◌, ◌≡◌, ◌≢◌, Bool, true, false, List, [], ◌∷◌, ◌++◌, ◌==◌, length, ◌||◌, not,
}
use webtransport_gos.Session.Lifecycle.{
  Options, Phase, waits_ready, waits_stream, waits_writers, connected, rejected, Life, Effect,
  starts_reading, calls_onopen, calls_onclose, Outcome, new_life, on_ready, on_stream, on_writers,
  on_tick, on_read_end, on_transport_closed, on_send, send_failed, close,
}

abbrev pub is_reading : ℕ → List ℕ → Bool
is_reading i [] = false
is_reading i (j ∷ js) = (i == j) || is_reading i js

-- One thing that may happen. A promise settles once, and `connect` waits for one at a time.
pub data Step (o : Options) (l : Life) : Outcome → Type 0 where
  gets_ready : l.phase ≡ waits_ready → Step o l (on_ready o l, [])
  gets_stream : (i : ℕ) → l.phase ≡ waits_stream i → Step o l (on_stream o i l, [])
  gets_writers : l.phase ≡ waits_writers → Step o l (on_writers l)
  rejects : l.phase ≢ connected → Step o l (record l { phase = rejected }, [])
  ticks : l.open_due ≡ true → Step o l (on_tick o l)
  ends_reading : (i : ℕ) → is_reading i l.reading ≡ true → Step o l (on_read_end i l)
  ends_transport :
      (fulfilled : Bool) → l.transport_over ≡ false → Step o l (on_transport_closed fulfilled l)
  closes : Step o l (close l)
  sends : (throws : Bool) → Step o l (on_send o throws l)

-- What was done, from the constructor on.
pub data Reach (o : Options) : Life → List Effect → Type 0 where
  begin : Reach o new_life []
  step :
      {l l' : Life} {done out : List Effect}
      → Reach o l done
      → Step o l (l', out)
      → Reach o l' (done ++ out)

-- How often `onopen` and `onclose` were called, and how many read loops were started.
abbrev pub openings : List Effect → ℕ
openings [] = 0
openings (calls_onopen ∷ out) = suc (openings out)
openings (_ ∷ out) = openings out

abbrev pub closings : List Effect → ℕ
closings [] = 0
closings (calls_onclose r ∷ out) = suc (closings out)
closings (_ ∷ out) = closings out

-- How often it was for a call of `send`.
abbrev pub refusals : List Effect → ℕ
refusals [] = 0
refusals (calls_onclose send_failed ∷ out) = suc (refusals out)
refusals (_ ∷ out) = refusals out

abbrev pub loops : List Effect → ℕ
loops [] = 0
loops (starts_reading i ∷ out) = suc (loops out)
loops (_ ∷ out) = loops out

abbrev pub to_number : Bool → ℕ
to_number false = 0
to_number true = 1

abbrev pub is_connected : Phase → Bool
is_connected connected = true
is_connected _ = false

-- The counts that the object and what it did agree on.
pub record IsCounted (l : Life) (done : List Effect) : Type 0 where
  pub closed_once :
      closings done + length l.reading + to_number (not l.transport_over)
      ≡ 1 + loops done + refusals done
  pub opened_once : openings done + to_number l.open_due ≡ to_number (is_connected l.phase)
  pub idle : is_connected l.phase ≡ false → l.reading ≡ []

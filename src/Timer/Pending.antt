-- ===== src/Timer/Pending.antt =====
-- How many timeouts of helper/Timer.js are pending.
use webtransport_gos.Prelude.{
  ℕ, ◌+◌, ◌≡◌, refl, ap, ◌∙◌, Bool, true, false, Option, none, some, List, [], ◌∷◌, length, map,
  ◌==◌, ◌||◌, arith,
}
use webtransport_gos.Timer.{
  Timer, Timeout, carries_on, stops, restarts, fails, new_timer, start, stop, update_interval,
  destroy, fire, is_started, next, clear_timeout, set_timeout,
}

abbrev pub handles : Option ℕ → List ℕ
handles none = []
handles (some handle) = handle ∷ []

-- The pending timeout is that of `timer`, and there is no other.
abbrev pub IsSingle : Timer → Type 0
IsSingle t = map (λ (p : Timeout). p.handle) t.pending ≡ handles t.timer

single_cleared :
    (ps : List Timeout) (h : ℕ)
    → map (λ (p : Timeout). p.handle) ps ≡ h ∷ []
    → clear_timeout ps h ≡ []
single_cleared [] h e = refl
single_cleared (p ∷ []) h e = ground arith
single_cleared (p ∷ q ∷ ps) h e = cc

no_pending : (ps : List Timeout) → map (λ (p : Timeout). p.handle) ps ≡ [] → ps ≡ []
no_pending [] e = refl
no_pending (p ∷ ps) e = cc

abbrev pub is_pending : ℕ → List Timeout → Bool
is_pending handle [] = false
is_pending handle (p ∷ ps) = (p.handle == handle) || is_pending handle ps

pending_is_timer :
    (handle : ℕ) (ps : List Timeout) (timer : Option ℕ)
    → map (λ (p : Timeout). p.handle) ps ≡ handles timer
    → is_pending handle ps ≡ true
    → timer ≡ some handle
pending_is_timer handle [] timer v h = cc
pending_is_timer handle (p ∷ ps) none v h = cc
pending_is_timer handle (p ∷ q ∷ ps) (some k) v h = cc
pending_is_timer handle (p ∷ []) (some k) v h =
    let held : p.handle ≡ k = cc v in
    let fired_one : p.handle ≡ handle = ground (arith, h) in ap some (cc (held, fired_one))

-- A timer with its task, if it was not destroyed, and whether the task threw in the last run since the
-- timer was started or stopped.
pub record Runtime : Type 0 where
  pub timer : Timer
  pub has_task : Bool
  pub threw : Bool

-- One call by the owner, or a pending timeout fires, for a task that does not start its own timer. A task
-- that is null throws.
pub data Step (r : Runtime) : Runtime → Type 0 where
  starts : Step r (record r { timer = start r.timer; threw = false })
  stops_it : Step r (record r { timer = stop r.timer; threw = false })
  updates : (interval : ℕ) → Step r (record r { timer = update_interval interval r.timer })
  destroys : Step r (record r { timer = destroy r.timer; has_task = false; threw = false })
  fires :
      (interval handle : ℕ) (more : Bool)
      → is_pending handle r.timer.pending ≡ true
      → r.has_task ≡ true
      → Step r (record r { timer = fire interval carries_on more handle r.timer })
  fires_and_stops :
      (interval handle : ℕ) (more : Bool)
      → is_pending handle r.timer.pending ≡ true
      → r.has_task ≡ true
      → Step r (record r { timer = fire interval stops more handle r.timer })
  fires_and_fails :
      (interval handle : ℕ) (more : Bool)
      → is_pending handle r.timer.pending ≡ true
      → Step r (record r { timer = fire interval fails more handle r.timer; threw = true })

pub data Reach (timeout : Option ℕ) (interval : ℕ) : Runtime → Type 0 where
  begin :
      Reach timeout interval
        (record { timer = new_timer timeout interval; has_task = true; threw = false })
  step : {r r' : Runtime} → Reach timeout interval r → Step r r' → Reach timeout interval r'

-- A task that threw left no timeout behind.
abbrev pub IsPending : Runtime → Type 0
IsPending r = elim r.threw [ true ↦ r.timer.pending ≡ [] | false ↦ IsSingle r.timer ]

stop-empty : (t : Timer) → IsSingle t → ((stop t).pending ≡ []) × ((stop t).timer ≡ none)
unfolding stop
stop-empty t v = timer_cases t.timer refl
  where
    timer_cases : (x : Option ℕ) → t.timer ≡ x → ((stop t).pending ≡ []) × ((stop t).timer ≡ none)
    timer_cases none e = ground (arith, no_pending t.pending (v ∙ ap handles e))
    timer_cases (some h) e = ground (arith, single_cleared t.pending h (v ∙ ap handles e))

set_timeout-IsSingle : (delay : ℕ) (t : Timer) → t.pending ≡ [] → IsSingle (set_timeout delay t)
unfolding set_timeout
set_timeout-IsSingle delay t e = rw e refl

stop-IsSingle : (t : Timer) → IsSingle t → IsSingle (stop t)
stop-IsSingle t v = let (e, f) = stop-empty t v in ground (arith, e, f)

-- The timer that fires has no timeout pending any more, and its handle still stands in `timer`.
abbrev fired : ℕ → Timer → Timer
fired handle t = record t { count = t.count + 1; pending = clear_timeout t.pending handle }

fired-empty :
    (handle : ℕ) (t : Timer) → IsSingle t → t.timer ≡ some handle → (fired handle t).pending ≡ []
fired-empty handle t v e = single_cleared t.pending handle (v ∙ ap handles e)

stop-fired :
    (handle : ℕ) (t : Timer)
    → IsSingle t
    → t.timer ≡ some handle
    → ((stop (fired handle t)).pending ≡ []) × ((stop (fired handle t)).timer ≡ none)
unfolding stop
stop-fired handle t v e = ground (arith, fired-empty handle t v e)

fire-IsSingle :
    (interval handle : ℕ) (more : Bool) (t : Timer)
    → IsSingle t
    → t.timer ≡ some handle
    → IsSingle (fire interval carries_on more handle t)
unfolding fire next
fire-IsSingle interval handle more t v e =
    let kept = set_timeout-IsSingle interval (fired handle t) (fired-empty handle t v e) in
    let (ended, off) = stop-fired handle t v e in ground (arith, kept, ended, off)

stop-IsSingle_twice :
    (interval handle : ℕ) (more : Bool) (t : Timer)
    → IsSingle t
    → t.timer ≡ some handle
    → IsSingle (fire interval stops more handle t)
unfolding fire next is_started
stop-IsSingle_twice interval handle more t v e =
    let (ended, off) = stop-fired handle t v e in
    let again : IsSingle (stop (stop (fired handle t))) =
      stop-IsSingle (stop (fired handle t)) (ground (arith, ended, off)) in
    ground (arith, again, off)

-- `stop` with no timeout pending, whatever `timer` is.
stop-pending : (t : Timer) → t.pending ≡ [] → ((stop t).pending ≡ []) × ((stop t).timer ≡ none)
unfolding stop
stop-pending t e = ground (arith, e)

-- In either case `stop` leaves a timer that is stopped, with nothing pending.
stop-IsPending :
    (r : Runtime) → IsPending r → ((stop r.timer).pending ≡ []) × ((stop r.timer).timer ≡ none)
stop-IsPending r v = cases r.threw refl v
  where
    cases :
        (threw : Bool)
        → r.threw ≡ threw
        → elim threw as (λ x. Type 0) [ true ↦ r.timer.pending ≡ [] | false ↦ IsSingle r.timer ]
        → ((stop r.timer).pending ≡ []) × ((stop r.timer).timer ≡ none)
    cases true e v = stop-pending r.timer v
    cases false e v = stop-empty r.timer v

fails-empty :
    (interval handle : ℕ) (more : Bool) (t : Timer)
    → IsSingle t
    → t.timer ≡ some handle
    → (fire interval fails more handle t).pending ≡ []
unfolding fire next
fails-empty interval handle more t v e = fired-empty handle t v e

-- A timeout fires only if the task has not thrown, and then it is the one of `timer`.
firing :
    (r : Runtime) (handle : ℕ)
    → IsPending r
    → is_pending handle r.timer.pending ≡ true
    → (r.threw ≡ false) × IsSingle r.timer × (r.timer.timer ≡ some handle)
firing r handle v h = cases r.threw refl v
  where
    cases :
        (threw : Bool)
        → r.threw ≡ threw
        → elim threw as (λ x. Type 0) [ true ↦ r.timer.pending ≡ [] | false ↦ IsSingle r.timer ]
        → (r.threw ≡ false) × IsSingle r.timer × (r.timer.timer ≡ some handle)
    cases true e v = absurd (cc (v, h))
    cases false e v = (e, v, pending_is_timer handle r.timer.pending r.timer.timer v h)

-- What `IsPending` is of an object whose task has not thrown.
calm :
    (threw : Bool) (t : Timer)
    → threw ≡ false
    → IsSingle t
    → elim threw as (λ x. Type 0) [ true ↦ t.pending ≡ [] | false ↦ IsSingle t ]
calm true t e v = cc
calm false t e v = v

Step-IsPending : {r r' : Runtime} → Step r r' → IsPending r → IsPending r'
Step-IsPending {r} starts v =
    unfold start in set_timeout-IsSingle _ (stop r.timer) (stop-IsPending r v).0
Step-IsPending {r} stops_it v = let (e, f) = stop-IsPending r v in ground (arith, e, f)
Step-IsPending {r} destroys v =
    let (e, f) = stop-IsPending r v in unfold destroy in ground (arith, e, f)
Step-IsPending {r} (updates interval) v = unfold update_interval in v
Step-IsPending {r} (fires interval handle more h task) v =
    let (quiet, single, own) = firing r handle v h in
    calm r.threw (fire interval carries_on more handle r.timer) quiet
      (fire-IsSingle interval handle more r.timer single own)
Step-IsPending {r} (fires_and_stops interval handle more h task) v =
    let (quiet, single, own) = firing r handle v h in
    calm r.threw (fire interval stops more handle r.timer) quiet
      (stop-IsSingle_twice interval handle more r.timer single own)
Step-IsPending {r} (fires_and_fails interval handle more h) v =
    let (quiet, single, own) = firing r handle v h in
    fails-empty interval handle more r.timer single own

-- After any sequence of calls, `destroy` among them, and of runs of a task that does not start its own
-- timer: a started timer has exactly one timeout pending, the one that it would clear, and a stopped one
-- has none, unless the task threw, as it does after `destroy`, since the timer was last started, stopped or
-- destroyed; then no timeout is pending, whether the timer stands as started or not.
pub Reach-IsPending :
    {timeout : Option ℕ} {interval : ℕ} {r : Runtime} → Reach timeout interval r → IsPending r
unfolding new_timer
Reach-IsPending begin = refl
Reach-IsPending (step r s) = Step-IsPending s (Reach-IsPending r)

-- When the task starts its own timer again and does not return false, two timeouts are pending
-- after it, and `stop` leaves one of them behind.
pub restart_leaks :
    (interval handle : ℕ) (t : Timer)
    → IsSingle t
    → t.timer ≡ some handle
    → (length (fire interval restarts true handle t).pending ≡ 2)
      × (length (stop (fire interval restarts true handle t)).pending ≡ 1)
unfolding fire next start stop set_timeout is_started
restart_leaks interval handle t v e = let gone = fired-empty handle t v e in ground (arith, gone)

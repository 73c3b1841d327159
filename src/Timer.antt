-- ===== src/Timer.antt =====
-- example/bjy-common/lib/helper/Timer.js: a task that is repeated by timeouts. The timeouts that are
-- pending stand beside the object: `setTimeout` adds the next handle to them, `clearTimeout` takes one
-- away, and the runtime may fire any of them, which takes it away first.
pub mod Pending
use webtransport_gos.Prelude.{
  ℕ, ◌+◌, Bool, true, false, ◌&&◌, Option, none, some, List, [], ◌∷◌, ◌++◌, ◌==◌, if◌then◌else◌,
}

-- A timeout that is pending, and its delay.
pub record Timeout : Type 0 where
  pub handle : ℕ
  pub delay : ℕ

-- `timeout` may be null; handles start at 1.
pub record Timer : Type 0 where
  pub timeout : Option ℕ
  pub interval : ℕ
  pub count : ℕ
  pub timer : Option ℕ
  pub pending : List Timeout
  pub next_handle : ℕ

-- `new Timer(task, timeout, interval)`, in a runtime with no timeout pending.
unfoldable pub new_timer : Option ℕ → ℕ → Timer
new_timer timeout interval = record {
  timeout = timeout;
  interval = interval;
  count = 0;
  timer = none;
  pending = [];
  next_handle = 1;
}

-- `clearTimeout(handle)`, and what is left of the pending ones when `handle` fires.
abbrev pub clear_timeout : List Timeout → ℕ → List Timeout
clear_timeout [] handle = []
clear_timeout (t ∷ ts) handle =
    if t.handle == handle then clear_timeout ts handle else t ∷ clear_timeout ts handle

-- `me.timer = setTimeout(next, delay)`
unfoldable pub set_timeout : ℕ → Timer → Timer
set_timeout delay t = record t {
  timer = some t.next_handle;
  pending = t.pending ++ record { handle = t.next_handle; delay = delay } ∷ [];
  next_handle = t.next_handle + 1;
}

unfoldable pub stop : Timer → Timer
stop t = elim t.timer [
  | none ↦ t
  | some handle ↦ record t { pending = clear_timeout t.pending handle; timer = none; count = 0 }
]

unfoldable pub start : Timer → Timer
unfolding stop set_timeout
start t =
    let t' = stop t in
    set_timeout (elim t.timeout [ none ↦ t.interval | some timeout ↦ timeout ]) t'

-- `destroy()`: the interval is null from then on, which `setTimeout` takes for 0. The task is null too; it
-- is not part of the record, and a run of it is `fails` from then on.
unfoldable pub destroy : Timer → Timer
unfolding stop
destroy t = record (stop t) { timeout = none; interval = 0 }

unfoldable pub update_interval : ℕ → Timer → Timer
update_interval interval t = record t { interval = interval }

unfoldable pub is_started : Timer → Bool
is_started t = elim t.timer [ none ↦ false | some handle ↦ true ]

-- What a task does to its own timer; `fails` is one that throws, or that is null.
pub data Act : Type 0 where
  carries_on stops restarts fails : Act

abbrev pub act : Act → Timer → Timer
act carries_on t = t
act stops t = stop t
act restarts t = start t
act fails t = t

-- `next`, for a task that does `a` to the timer; `more` says that it does not return false. The delay
-- is the interval at the time of `start`, which the closure holds. After a
-- throw nothing else is done.
unfoldable pub next : ℕ → Act → Bool → Timer → Timer
unfolding is_started
next interval fails more t = record t { count = t.count + 1 }
next interval a more t =
    let t' = act a (record t { count = t.count + 1 }) in
    if more && is_started t' then set_timeout interval t' else stop t'

-- A pending timeout fires.
unfoldable pub fire : ℕ → Act → Bool → ℕ → Timer → Timer
fire interval a more handle t =
    next interval a more (record t { pending = clear_timeout t.pending handle })

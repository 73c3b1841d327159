-- ===== src/Tests/Timers.antt =====
-- Concrete runs of a timer.
use webtransport_gos.Prelude.{◌≡◌, refl, true, false, some, [], ◌∷◌, length}
use webtransport_gos.Timer.{
  Timer, new_timer, start, stop, destroy, fire, next, set_timeout, is_started, carries_on, restarts,
  fails,
}
use webtransport_gos.Timer.Pending.{
  Runtime, is_pending, begin, step, starts, fires, destroys, fires_and_fails, Reach-IsPending,
  restart_leaks,
}

-- A timer with a first delay of 1000, that was started and has run once.
abbrev running : Timer
running = record {
  timeout = some 1000;
  interval = 5000;
  count = 1;
  timer = some 2;
  pending = record { handle = 2; delay = 5000 } ∷ [];
  next_handle = 3;
}

-- Started, run once, destroyed and started again.
abbrev restarted : Timer
restarted = start (destroy (fire 5000 carries_on true 1 (start (new_timer (some 1000) 5000))))

abbrev ended : Runtime
ended = record { timer = fire 0 fails true 3 restarted; has_task = false; threw = true }

first_pending : is_pending 1 (start (new_timer (some 1000) 5000)).pending ≡ true
unfolding start stop new_timer set_timeout
first_pending = refl

third_pending : is_pending 3 restarted.pending ≡ true
unfolding start stop new_timer set_timeout destroy fire next is_started
third_pending = refl

-- The task is null when the last timeout fires: nothing is pending after it.
Reach-IsPending_example : ended.timer.pending ≡ []
Reach-IsPending_example = Reach-IsPending (
    step
      (step (step (step (step begin starts) (fires 5000 1 true first_pending refl)) destroys)
        starts)
      (fires_and_fails 0 3 true third_pending))

restart_leaks_example :
    (length (fire 5000 restarts true 2 running).pending ≡ 2)
    × (length (stop (fire 5000 restarts true 2 running)).pending ≡ 1)
restart_leaks_example = restart_leaks 5000 2 running refl refl

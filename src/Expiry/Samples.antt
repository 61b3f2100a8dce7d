-- ===== src/Expiry/Samples.antt =====
-- Runs of the timers of a job.
use nosana_node.Base.{◌≡◌, refl, false, none, some, [], ◌∷◌}
use nosana_node.Expiry.{
  Expiry, init, start_or_reset_timer, timeout_delay, changed, timer_due, react_all, react,
  on_changed, extend_expiry_time, on_expiry_timer, is_due, stop,
}
use nosana_node.Expiry.Timers.{init-due}

abbrev idle : Expiry
idle = record {
  job_address = none;
  expiry_end_time = 0;
  expiry_timer = none;
  warning_timer = none;
  resolving = false;
  calls = 0;
}

-- A job that was extended ends at its new time, once.
extended_runs :
    (react_all 10
      (changed 11000 40 ∷ timer_due 15000 ∷ timer_due 50000 ∷ timer_due 50001 ∷ [])
      (init 10000 10 5 "job" idle)).calls
    ≡ 1
unfolding react_all react init start_or_reset_timer timeout_delay on_changed extend_expiry_time
    on_expiry_timer is_due stop
extended_runs = refl

init-due_example :
    ((init 10000 10 5 "job" idle).expiry_end_time ≡ 15000)
    × ((init 10000 10 5 "job" idle).expiry_timer ≡ some 15000)
init-due_example = init-due 10000 10 5 "job" idle

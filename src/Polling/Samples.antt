-- ===== src/Polling/Samples.antt =====
-- Runs of the polling of a container.
use nosana_node.Base.{◌≡◌, refl, true, false, List, [], ◌∷◌}
use nosana_node.Polling.{
  running, Monitor, Inspected, up, down, thrown, is_exited, poll_all, poll, on_tick, on_inspected,
  stop_monitoring, is_over,
}
use nosana_node.Polling.Exits.{poll_all-exited}

abbrev watched : Monitor
watched = record {
  state = running;
  exited_check_count = 0;
  polling = true;
  is_restarting = false;
  aborted = false;
}

ended_runs : is_over (poll_all (down ∷ thrown ∷ down ∷ []) watched) ≡ true
unfolding poll_all poll on_tick on_inspected is_over is_exited stop_monitoring
ended_runs = refl

abbrev flickers : List Inspected
flickers = down ∷ thrown ∷ up true ∷ down ∷ []

poll_all-exited_example :
    (is_exited (poll_all flickers watched).state ≡ false)
    × ((poll_all flickers watched).exited_check_count ≡ 1)
unfolding is_exited
poll_all-exited_example = poll_all-exited flickers watched (refl, refl, refl, refl) refl

-- ===== src/Health/Samples.antt =====
-- A port with a liveness check and a check for the startup only, and a container that keeps failing.
use nosana_node.Base.{◌≡◌, refl, true, false, none, some, List, [], ◌∷◌}
use nosana_node.Base.Map
use nosana_node.Health.{
  http, Check, ExposedPort, healthy, unhealthy, HealthCheck, on_continuous_result, clear_intervals,
  restart_unhealthy, on_restarted, start_interval, start_intervals, start_health_check, stop_all,
  without,
}
use nosana_node.Health.Restarts.{Act, continuous, restarted, startup, stop, act, run, late_startup}

abbrev liveness : Check
liveness = record {
  name = "live";
  probe = http;
  continuous = true;
  restart_on_failure = true;
  max_restarts = some 1;
}

abbrev once : Check
once = record {
  name = "up";
  probe = http;
  continuous = false;
  restart_on_failure = false;
  max_restarts = none;
}

abbrev port : ExposedPort
port = record { is_number = true; health_checks = some (liveness ∷ once ∷ []) }

abbrev watched : HealthCheck
watched = record {
  ports = ("web", port) ∷ [];
  status = ("web", true) ∷ [];
  intervals = ("web", 1) ∷ [];
  timers = 1 ∷ [];
  next_timer = 2;
  can_restart = true;
  restart_count = 0;
  restart_in_flight = false;
  restart_limit_logged = false;
  stopped = false;
  events = [];
}

abbrev failures : List Act
failures =
    continuous "web" 1 (unhealthy liveness)
    ∷ restarted "web" true
    ∷ continuous "web" 2 (unhealthy liveness)
    ∷ []

restarted_once : (run failures watched).restart_count ≡ 1
unfolding run act on_continuous_result restart_unhealthy on_restarted start_health_check
    start_intervals start_interval clear_intervals Map.get Map.set
restarted_once = refl

late_startup_example :
    let next = run (stop ∷ startup "web" 1 healthy ∷ []) watched in
    (next.stopped ≡ true)
    × (next.timers ≡ (stop_all watched).next_timer ∷ without 1 (stop_all watched).timers)
    × (Map.get "web" next.intervals ≡ some (stop_all watched).next_timer)
late_startup_example = late_startup "web" 1 watched

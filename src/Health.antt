-- ===== src/Health.antt =====
-- NodeManager/provider/ExposedPortHealthCheck.ts: the health checks of the exposed ports of an
-- operation, and the restart of its container. A timer callback is cut at its `await`: what the
-- checks gave reaches `on_startup_result` and `on_continuous_result`, and the end of a restart is
-- `on_restarted`. The guard `checkInFlight` of a startup timer orders its callbacks and is left out.
pub mod Checks
pub mod Restarts
mod Samples
use mathlib.Core.Option
use nosana_node.Base.{
  String, str_eq, eq_iff, eq_refl, ℕ, suc, zero, ◌+◌, ◌-◌, ◌*◌, ◌/◌, ◌%◌, ◌^◌, ◌≤◌, ◌<◌, ◌≡◌, refl,
  sym, ap, ◌∙◌, ◌≢◌, ◌↔◌, ◌⊎◌, inl, inr, Bool, true, false, not, ◌&&◌, ◌||◌, Option, none, some,
  List, [], ◌∷◌, ◌++◌, map, arith, if◌then◌else◌, is_some, or_else, contains, count, remove,
  add_member, IsDistinct, All, Bool-cases, Result, ok, err, recover, ltb, leb, ◌==◌, length,
  is_empty, select, get_elem?, set, take, drop, all, any,
}
use nosana_node.Base.Map
use nosana_node.Base.Map.{Map}

-- `type` is 'http', 'websocket', or what the loop passes over.
pub data Probe : Type 0 where
  http websocket other : Probe

-- `RestartableHealthCheck`, the request itself being a matter of the probe
pub record Check : Type 0 where
  pub name : String
  pub probe : Probe
  pub continuous : Bool
  pub restart_on_failure : Bool
  pub max_restarts : Option ℕ

-- An exposed port: whether `typeof port === 'number'`, and its checks.
pub record ExposedPort : Type 0 where
  pub is_number : Bool
  pub health_checks : Option (List Check)

-- `PortHealth | null`, a failure with its check
pub data PortHealth : Type 0 where
  skipped healthy : PortHealth
  unhealthy : Check → PortHealth

abbrev pub runs : Bool → Probe → Bool
runs is_number other = false
runs is_number probe = is_number

-- The loop of `checkPortHealth`, with what the probe of a check gives.
unfoldable pub check_loop : (Check → Bool) → Bool → Bool → List Check → PortHealth
check_loop success initial is_number [] = healthy
check_loop success initial is_number (check ∷ checks) =
    let rest = check_loop success initial is_number checks in
    if not initial && not check.continuous
    then skipped
    else if runs is_number check.probe && not (success check)
    then unhealthy check
    else rest

unfoldable pub check_port_health : (Check → Bool) → ExposedPort → Bool → PortHealth
check_port_health success port initial = elim (port.health_checks) [
  | none ↦ skipped
  | some [] ↦ skipped
  | some (check ∷ checks) ↦ check_loop success initial port.is_number (check ∷ checks)
]

-- `checks.findIndex((check) => !check.continuous)`
unfoldable pub startup_only : List Check → Option ℕ
startup_only [] = none
startup_only (check ∷ checks) =
    if check.continuous then Option.map (λ n. suc n) (startup_only checks) else some 0

abbrev pub is_before : ℕ → Option ℕ → Bool
is_before index none = true
is_before index (some first) = ltb index first

-- `reportUnreachableRestartChecks`, for the checks of one port from an index on: those reported.
unfoldable pub unreachable : Option ℕ → ℕ → List Check → List Check
unreachable first index [] = []
unreachable first index (check ∷ checks) =
    let rest = unreachable first (index + 1) checks in
    if check.restart_on_failure && not (check.continuous && is_before index first)
    then check ∷ rest
    else rest

unfoldable pub report_unreachable : ExposedPort → List Check
report_unreachable port =
    let checks = or_else port.health_checks [] in unreachable (startup_only checks) 0 checks

-- What is emitted.
pub data Event : Type 0 where
  url_exposed startup_success continuous_failure limit_reached restarting restart_failed :
      String → Event

-- `timers` are the intervals that run, by their handles; `intervals` is the map of that name.
pub record HealthCheck : Type 0 where
  pub ports : Map ExposedPort
  pub status : Map Bool
  pub intervals : Map ℕ
  pub timers : List ℕ
  pub next_timer : ℕ
  pub can_restart : Bool
  pub restart_count : ℕ
  pub restart_in_flight : Bool
  pub restart_limit_logged : Bool
  pub stopped : Bool
  -- the last one first
  pub events : List Event

abbrev pub emit : Event → HealthCheck → HealthCheck
emit event h = record h { events = event ∷ h.events }

abbrev pub without : ℕ → List ℕ → List ℕ
without timer timers = select (λ t. not (t == timer)) timers

-- `clearInterval`
abbrev pub clear_interval : ℕ → HealthCheck → HealthCheck
clear_interval timer h = record h { timers = without timer h.timers }

-- `this.intervals.set(id, setInterval(…))`, the last lines of both `start…HealthCheck`
unfoldable pub start_interval : String → HealthCheck → HealthCheck
start_interval id h = record h {
  timers = h.next_timer ∷ h.timers;
  intervals = Map.set id h.next_timer h.intervals;
  next_timer = h.next_timer + 1;
}

unfoldable pub start_intervals : List String → HealthCheck → HealthCheck
start_intervals [] h = h
start_intervals (id ∷ ids) h = start_intervals ids (start_interval id h)

-- `startServiceExposedUrlHealthCheck`
unfoldable pub start_health_check : HealthCheck → HealthCheck
start_health_check h = start_intervals (Map.keys h.ports) h

-- The callback of a startup timer, from the result of the checks on.
unfoldable pub on_startup_result : String → ℕ → PortHealth → HealthCheck → HealthCheck
on_startup_result id timer skipped h = emit (url_exposed id) (clear_interval timer h)
on_startup_result id timer healthy h = start_interval id (
    emit (startup_success id)
      (record (clear_interval timer h) { status = Map.set id true h.status }))
on_startup_result id timer (unhealthy check) h = h

-- `this.intervals.forEach((interval) => clearInterval(interval))`
unfoldable pub clear_intervals : List ℕ → HealthCheck → HealthCheck
clear_intervals [] h = h
clear_intervals (timer ∷ timers) h = clear_intervals timers (clear_interval timer h)

abbrev pub is_reached : Option ℕ → ℕ → Bool
is_reached none count = false
is_reached (some limit) count = leb limit count

-- `restartUnhealthyContainer`, up to the `await`
unfoldable pub restart_unhealthy : String → Check → HealthCheck → HealthCheck
restart_unhealthy id check h =
    if not h.can_restart || h.restart_in_flight || h.stopped
    then h
    else if is_reached check.max_restarts h.restart_count
    then if h.restart_limit_logged
      then h
      else emit (limit_reached id) (record h { restart_limit_logged = true })
    else emit (restarting id) (record (clear_intervals (Map.values h.intervals) h) {
      restart_in_flight = true;
      restart_count = h.restart_count + 1;
      intervals = [];
      status = [];
    })

-- The rest of `restartUnhealthyContainer`, with whether the container was restarted.
unfoldable pub on_restarted : String → Bool → HealthCheck → HealthCheck
on_restarted id restarted h =
    let landed = record h { restart_in_flight = false } in
    if not restarted
    then emit (restart_failed id) landed
    else if h.stopped
    then landed
    else start_health_check landed

abbrev pub is_true : Option Bool → Bool
is_true (some b) = b
is_true none = false

-- The callback of a continuous timer, from the result of the checks on.
unfoldable pub on_continuous_result : String → ℕ → PortHealth → HealthCheck → HealthCheck
on_continuous_result id timer skipped h = clear_interval timer h
on_continuous_result id timer healthy h =
    if is_true (Map.get id h.status) then h else record h { status = Map.set id true h.status }
on_continuous_result id timer (unhealthy check) h =
    let noted =
      if is_true (Map.get id h.status)
      then emit (continuous_failure id) (record h { status = Map.set id false h.status })
      else h in
    if check.restart_on_failure then restart_unhealthy id check noted else noted

-- `stopHealthCheckForId`
unfoldable pub stop_for_id : String → HealthCheck → HealthCheck
stop_for_id id h = elim (Map.get id h.intervals) [
  | none ↦ h
  | some timer ↦ record (clear_interval timer h) {
    intervals = Map.delete id h.intervals;
    status = Map.delete id h.status;
    ports = Map.delete id h.ports;
  }
]

-- `stopAllHealthChecks`
unfoldable pub stop_all : HealthCheck → HealthCheck
stop_all h = record (clear_intervals (Map.values h.intervals) h) {
  stopped = true;
  intervals = [];
  status = [];
  ports = [];
}

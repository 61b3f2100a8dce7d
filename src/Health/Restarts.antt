-- ===== src/Health/Restarts.antt =====
-- How often the container is restarted, and what still runs after the health checks were stopped.
use nosana_node.Base.{
  String, ℕ, ◌≤◌, ◌≡◌, refl, ◌∙◌, Bool, true, false, some, List, [], ◌∷◌, arith, if◌then◌else◌, All,
}
use nosana_node.Base.Map
use nosana_node.Base.Map.{Map}
use nosana_node.Health.{
  Check, HealthCheck, PortHealth, continuous_failure, is_true, without, healthy, unhealthy,
  clear_interval, clear_intervals, start_interval, start_intervals, start_health_check,
  restart_unhealthy, on_restarted, on_startup_result, on_continuous_result, stop_all, emit,
}

-- What reaches the restarts: the result of a startup or continuous check of a port, on its timer,
-- the end of a restart, and the stop.
pub data Act : Type 0 where
  startup continuous : String → ℕ → PortHealth → Act
  restarted : String → Bool → Act
  stop : Act

unfoldable pub act : Act → HealthCheck → HealthCheck
act (startup id timer result) h = on_startup_result id timer result h
act (continuous id timer result) h = on_continuous_result id timer result h
act (restarted id done) h = on_restarted id done h
act stop h = stop_all h

unfoldable pub run : List Act → HealthCheck → HealthCheck
run [] h = h
run (a ∷ acts) h = run acts (act a h)

-- The failed check of an act allows no more restarts than a limit.
abbrev pub LimitedTo : ℕ → Act → Type 0
LimitedTo limit (continuous id timer (unhealthy check)) =
    (n : ℕ) × (check.max_restarts ≡ some n) × (n ≤ limit)
LimitedTo limit other_act = Unit

clear_intervals-count :
    (timers : List ℕ) (h : HealthCheck) → (clear_intervals timers h).restart_count ≡ h.restart_count
unfolding clear_intervals
clear_intervals-count [] h = refl
clear_intervals-count (t ∷ timers) h = clear_intervals-count timers (clear_interval t h)

start_intervals-count :
    (ids : List String) (h : HealthCheck) → (start_intervals ids h).restart_count ≡ h.restart_count
unfolding start_intervals start_interval
start_intervals-count [] h = refl
start_intervals-count (id ∷ ids) h = start_intervals-count ids (start_interval id h)

start_health_check-count :
    (h : HealthCheck) → (start_health_check h).restart_count ≡ h.restart_count
unfolding start_health_check
start_health_check-count h = start_intervals-count (Map.keys h.ports) h

restart_unhealthy-count :
    (id : String) (check : Check) (limit n : ℕ) (h : HealthCheck)
    → check.max_restarts ≡ some n
    → n ≤ limit
    → h.restart_count ≤ limit
    → (restart_unhealthy id check h).restart_count ≤ limit
unfolding restart_unhealthy
restart_unhealthy-count id check limit n h m k c =
    ground (arith, clear_intervals-count (Map.values h.intervals) h)

if-count :
    (b : Bool) (limit : ℕ) (h next : HealthCheck)
    → h.restart_count ≤ limit
    → next.restart_count ≤ limit
    → (if b then next else h).restart_count ≤ limit
if-count true limit h next c d = d
if-count false limit h next c d = c

act-count :
    (a : Act) (limit : ℕ) (h : HealthCheck)
    → LimitedTo limit a
    → h.restart_count ≤ limit
    → (act a h).restart_count ≤ limit
unfolding act on_startup_result on_continuous_result on_restarted stop_all start_interval
act-count (startup id timer PortHealth.skipped) limit h l c = c
act-count (startup id timer healthy) limit h l c = c
act-count (startup id timer (unhealthy check)) limit h l c = c
act-count (continuous id timer PortHealth.skipped) limit h l c = c
act-count (continuous id timer healthy) limit h l c = ground arith
act-count (continuous id timer (unhealthy check)) limit h (n, m, k) c =
    let noted : HealthCheck =
      if is_true (Map.get id h.status)
      then emit (continuous_failure id) (record h { status = Map.set id false h.status })
      else h in
    let same =
      if-count (is_true (Map.get id h.status)) limit h
        (emit (continuous_failure id) (record h { status = Map.set id false h.status })) c c in
    if-count check.restart_on_failure limit noted (restart_unhealthy id check noted) same
      (restart_unhealthy-count id check limit n noted m k same)
act-count (restarted id false) limit h l c = c
act-count (restarted id true) limit h l c =
    ground (arith, start_health_check-count (record h { restart_in_flight = false }))
act-count stop limit h l c = ground (arith, clear_intervals-count (Map.values h.intervals) h)

-- If no check that fails allows more than a number of restarts, the container is restarted no more
-- often than that, whatever results arrive, in any order, and whatever restarts succeed.
pub run-count :
    (acts : List Act) (limit : ℕ) (h : HealthCheck)
    → All (LimitedTo limit) acts
    → h.restart_count ≤ limit
    → (run acts h).restart_count ≤ limit
unfolding run
run-count [] limit h l c = c
run-count (a ∷ acts) limit h l c = run-count acts limit (act a h) l.1 (act-count a limit h l.0 c)

-- What a stop fixes: that it has happened, and how often the container was restarted.
abbrev Rests : HealthCheck → HealthCheck → Type 0
Rests h next = (next.stopped ≡ true) × (next.restart_count ≡ h.restart_count)

clear_intervals-stopped :
    (timers : List ℕ) (h : HealthCheck) → (clear_intervals timers h).stopped ≡ h.stopped
unfolding clear_intervals
clear_intervals-stopped [] h = refl
clear_intervals-stopped (t ∷ timers) h = clear_intervals-stopped timers (clear_interval t h)

restart_unhealthy-Rests :
    (id : String) (check : Check) (h : HealthCheck)
    → h.stopped ≡ true
    → restart_unhealthy id check h ≡ h
unfolding restart_unhealthy
restart_unhealthy-Rests id check h s = ground arith

if-Rests :
    (b : Bool) (h next other : HealthCheck)
    → Rests h next
    → Rests h other
    → Rests h (if b then next else other)
if-Rests true h next other n o = n
if-Rests false h next other n o = o

act-Rests : (a : Act) (h : HealthCheck) → h.stopped ≡ true → Rests h (act a h)
unfolding act on_startup_result on_continuous_result on_restarted stop_all start_interval
act-Rests (startup id timer PortHealth.skipped) h s = (s, refl)
act-Rests (startup id timer healthy) h s = (s, refl)
act-Rests (startup id timer (unhealthy check)) h s = (s, refl)
act-Rests (continuous id timer PortHealth.skipped) h s = (s, refl)
act-Rests (continuous id timer healthy) h s =
    if-Rests (is_true (Map.get id h.status)) h h (record h { status = Map.set id true h.status })
      (s, refl) (s, refl)
act-Rests (continuous id timer (unhealthy check)) h s =
    let failed = emit (continuous_failure id) (record h { status = Map.set id false h.status }) in
    let noted : HealthCheck = if is_true (Map.get id h.status) then failed else h in
    let rests = if-Rests (is_true (Map.get id h.status)) h failed h (s, refl) (s, refl) in
    if-Rests check.restart_on_failure h (restart_unhealthy id check noted) noted
      (rw (restart_unhealthy-Rests id check noted rests.0) rests) rests
act-Rests (restarted id false) h s = (s, refl)
act-Rests (restarted id true) h s = rw s (refl, refl)
act-Rests stop h s = (refl, clear_intervals-count (Map.values h.intervals) h)

-- Once the health checks have been stopped the container is not restarted again, whatever results
-- still arrive and whatever restarts still end.
pub run-stopped :
    (acts : List Act) (h : HealthCheck)
    → h.stopped ≡ true
    → ((run acts h).stopped ≡ true) × ((run acts h).restart_count ≡ h.restart_count)
unfolding run
run-stopped [] h s = (s, refl)
run-stopped (a ∷ acts) h s =
    let first = act-Rests a h s in
    let rest = run-stopped acts (act a h) first.0 in (rest.0, rest.1 ∙ first.1)

-- A startup check that finds its port healthy after all health checks were stopped starts a timer
-- nevertheless, which runs and which the map of the intervals holds.
pub late_startup :
    (id : String) (timer : ℕ) (h : HealthCheck)
    → let next = run (stop ∷ startup id timer healthy ∷ []) h in
      (next.stopped ≡ true)
      × (next.timers ≡ (stop_all h).next_timer ∷ without timer (stop_all h).timers)
      × (Map.get id next.intervals ≡ some (stop_all h).next_timer)
unfolding run act on_startup_result start_interval stop_all
late_startup id timer h = (refl, refl, Map.get-set_self id (stop_all h).next_timer [])

-- ===== src/Expiry/Timers.antt =====
-- When the timer of a job is due, and how often it ends the job.
use nosana_node.Base.{
  String, ℕ, suc, ◌+◌, ◌-◌, ◌≤◌, ◌≡◌, refl, true, false, none, some, List, [], ◌∷◌, arith,
  Bool-cases, inl, inr, ==_iff, ◌==◌, is_some, ltb, leb, ◌&&◌, if◌then◌else◌, ◌++◌,
}
use nosana_node.Expiry.{
  Expiry, max_delay, timeout_delay, end_of, start_or_reset_timer, stop, init, extend_expiry_time,
  on_changed, shortened_expiry, is_for, on_stop_job, on_expiry_timer, Event, changed, stop_job,
  timer_due, stopped, is_due, react, react_all, notify_changed,
}

-- Once a callback has run, the handler is resolving.
abbrev IsOnce : Expiry → Type 0
IsOnce e = (e.resolving ≡ false → e.calls ≡ 0) × (e.calls ≤ 1)

IsOnce-fired : (e : Expiry) → IsOnce e → IsOnce (on_expiry_timer e)
unfolding on_expiry_timer stop
IsOnce-fired e h = elim (Bool-cases e.resolving) [
  | inl r ↦ rw r ((λ f. absurd (ground (arith, r, f))), h.1)
  | inr r ↦ rw r ((λ f. cc), omega (arith, h.0 r))
]

IsOnce-react : (time : ℕ) (event : Event) (e : Expiry) → IsOnce e → IsOnce (react time event e)
unfolding react stop on_changed extend_expiry_time start_or_reset_timer on_stop_job shortened_expiry
IsOnce-react time (changed now timeout) e h =
    elim (Bool-cases (end_of time timeout == e.expiry_end_time)) [ inl s ↦ rw s h | inr s ↦ rw s h ]
IsOnce-react time (stop_job now id) e h = elim (Bool-cases (is_for id e.job_address)) [
  | inl s ↦ rw s h
  | inr s ↦ rw s h
]
IsOnce-react time (timer_due now) e h = elim (Bool-cases (is_due now e.expiry_timer)) [
  | inl s ↦ rw s (IsOnce-fired (record e { expiry_timer = none }) h)
  | inr s ↦ rw s h
]
IsOnce-react time stopped e h = h

IsOnce-react_all :
    (time : ℕ) (events : List Event) (e : Expiry) → IsOnce e → IsOnce (react_all time events e)
unfolding react_all
IsOnce-react_all time [] e h = h
IsOnce-react_all time (event ∷ events) e h =
    IsOnce-react_all time events (react time event e) (IsOnce-react time event e h)

-- Whatever happens after `init`, the callback is called at most once.
pub react_all-calls :
    (now time timeout : ℕ) (job : String) (e : Expiry) (events : List Event)
    → (react_all time events (init now time timeout job e)).calls ≤ 1
unfolding init start_or_reset_timer
react_all-calls now time timeout job e events =
    (IsOnce-react_all time events (init now time timeout job e) ((λ r. refl), omega arith)).1

-- The timer that `init` sets is due at the end of the run's time, if that is in the future and not
-- further away than 2147483647 milliseconds; if it is further away, or not in the future, the
-- timer is due after one millisecond.
pub init-due :
    (now time timeout : ℕ) (job : String) (e : Expiry)
    → let left = end_of time timeout - now in
      let next = init now time timeout job e in
      (next.expiry_end_time ≡ end_of time timeout)
      × (next.expiry_timer
          ≡ some (if ltb 0 left && leb left max_delay then end_of time timeout else now + 1))
unfolding init start_or_reset_timer timeout_delay
init-due now time timeout job e = (refl, ground arith)

on_changed-end :
    (now time timeout : ℕ) (e : Expiry)
    → (on_changed now time timeout e).expiry_end_time ≡ end_of time timeout
unfolding on_changed extend_expiry_time start_or_reset_timer
on_changed-end now time timeout e = ground (arith, ==_iff (end_of time timeout) e.expiry_end_time)

-- Although the listeners of earlier runs still react to a change of the timeout, each with the
-- start of its own run, the end is that of the last run with the new timeout.
pub notify_changed-end :
    (now time timeout : ℕ) (earlier : List ℕ) (e : Expiry)
    → (notify_changed now (earlier ++ (time ∷ [])) timeout e).expiry_end_time ≡ end_of time timeout
unfolding notify_changed
notify_changed-end now time timeout [] e = on_changed-end now time timeout e
notify_changed-end now time timeout (t ∷ earlier) e =
    notify_changed-end now time timeout earlier (on_changed now t timeout e)

-- A change of the timeout after `stop` sets a timer again, which calls the callback.
pub on_changed-stopped :
    (now time timeout : ℕ) (e : Expiry)
    → (end_of time timeout == e.expiry_end_time) ≡ false
    → e.resolving ≡ false
    → let late = on_changed now time timeout (stop e) in
      (is_some late.expiry_timer ≡ true) × ((on_expiry_timer late).calls ≡ suc e.calls)
unfolding on_changed stop extend_expiry_time start_or_reset_timer on_expiry_timer
on_changed-stopped now time timeout e n r = rw (n, r) (refl, refl)

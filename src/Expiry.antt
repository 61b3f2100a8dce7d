-- ===== src/Expiry.antt =====
-- NodeManager/node/expiry/expiryHandler.ts: the timer that ends a job. Times are in milliseconds, but
-- for the times of a run and its job, which are in seconds. A timer is the time at which it is
-- due; `calls` counts the calls of the callback.
pub mod Timers
mod Samples
use nosana_node.Base.{
  String, str_eq, ℕ, suc, ◌+◌, ◌-◌, ◌*◌, ◌==◌, Bool, true, false, ◌||◌, not, Option, none, some,
  List, [], ◌∷◌, if◌then◌else◌, ltb, leb,
}

pub record Expiry : Type 0 where
  pub job_address : Option String
  pub expiry_end_time : ℕ
  pub expiry_timer : Option ℕ
  pub warning_timer : Option ℕ
  pub resolving : Bool
  pub calls : ℕ

abbrev pub max_delay : ℕ
max_delay = 2147483647

-- The delay that `setTimeout` takes for a number of milliseconds: 1 if it is below 1 or over the
-- largest 32-bit integer.
unfoldable pub timeout_delay : ℕ → ℕ
timeout_delay ms = if ltb ms 1 || ltb max_delay ms then 1 else ms

-- `new BN(time).add(new BN(timeout)).mul(new BN(1000))`
abbrev pub end_of : ℕ → ℕ → ℕ
end_of time timeout = (time + timeout) * 1000

-- `startOrResetTimer`. A time that has passed leaves 0, which `setTimeout` takes as it takes a
-- negative number.
unfoldable pub start_or_reset_timer : ℕ → Expiry → Expiry
start_or_reset_timer now e =
    let remaining = e.expiry_end_time - now in
    let warning = remaining - 120000 in
    record e {
      warning_timer = if ltb 0 warning then some (now + timeout_delay warning) else none;
      expiry_timer = some (now + timeout_delay remaining);
    }

-- `stop`
unfoldable pub stop : Expiry → Expiry
stop e = record e { expiry_timer = none; warning_timer = none; job_address = none }

-- `init`, but for the listeners, which are `on_changed` and `on_stop_job`
unfoldable pub init : ℕ → ℕ → ℕ → String → Expiry → Expiry
init now time timeout job e = start_or_reset_timer now (record e {
  resolving = false;
  job_address = some job;
  expiry_end_time = end_of time timeout;
  calls = 0;
})

-- `extendExpiryTime`, by `more` less `fewer`, one of which is 0
unfoldable pub extend_expiry_time : ℕ → ℕ → ℕ → Expiry → Expiry
extend_expiry_time now more fewer e =
    start_or_reset_timer now (record e { expiry_end_time = e.expiry_end_time + more - fewer })

-- 'changed', of the run that started at `time`
unfoldable pub on_changed : ℕ → ℕ → ℕ → Expiry → Expiry
on_changed now time timeout e =
    let next = end_of time timeout in
    if next == e.expiry_end_time
    then e
    else extend_expiry_time now (next - e.expiry_end_time) (e.expiry_end_time - next) e

-- 'changed', for the listener of each run that the handler was initialised with, in that order:
-- none of them is ever removed.
unfoldable pub notify_changed : ℕ → List ℕ → ℕ → Expiry → Expiry
notify_changed now [] timeout e = e
notify_changed now (time ∷ times) timeout e =
    notify_changed now times timeout (on_changed now time timeout e)

-- `shortenedExpiry`
unfoldable pub shortened_expiry : ℕ → Expiry → Expiry
shortened_expiry now e = start_or_reset_timer now (record e { expiry_end_time = now })

abbrev pub is_for : String → Option String → Bool
is_for id none = false
is_for id (some job) = str_eq job id

-- 'stop-job'
unfoldable pub on_stop_job : ℕ → String → Expiry → Expiry
on_stop_job now id e = if is_for id e.job_address then shortened_expiry now e else e

-- The callback of the expiry timer.
unfoldable pub on_expiry_timer : Expiry → Expiry
on_expiry_timer e =
    if e.resolving then e else record (stop (record e { resolving = true })) { calls = suc e.calls }

-- `expired`: `expirationTime < Date.now() / 1000`
unfoldable pub expired : ℕ → ℕ → ℕ → Bool
expired now time timeout = ltb (end_of time timeout) now

-- What happens after `init`, each at its time.
pub data Event : Type 0 where
  changed : ℕ → ℕ → Event
  stop_job : ℕ → String → Event
  timer_due : ℕ → Event
  stopped : Event

-- A timer's callback runs only when the timer is set and due.
unfoldable pub is_due : ℕ → Option ℕ → Bool
is_due now none = false
is_due now (some at) = leb at now

unfoldable pub react : ℕ → Event → Expiry → Expiry
react time (changed now timeout) e = on_changed now time timeout e
react time (stop_job now id) e = on_stop_job now id e
react time (timer_due now) e =
    if is_due now e.expiry_timer then on_expiry_timer (record e { expiry_timer = none }) else e
react time stopped e = stop e

unfoldable pub react_all : ℕ → List Event → Expiry → Expiry
react_all time [] e = e
react_all time (event ∷ events) e = react_all time events (react time event e)

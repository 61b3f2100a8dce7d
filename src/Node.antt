-- ===== src/Node.antt =====
-- NodeManager/index.ts, NodeManager/node/Node.ts and NodeManager/node/run/runHandler.ts: the start of
-- the node up to its queue, the wait for a run, the cycle of one job, and the flags by which the
-- manager stops and restarts. A call of another component is a parameter with what it returns or
-- throws; an error is its message.
pub mod Cycles
mod Samples
use nosana_node.Base.{
  String, Bool, true, false, not, ◌&&◌, ◌||◌, Option, none, some, is_some, List, [], ◌∷◌, ◌++◌,
  if◌then◌else◌, Result, ok, err,
}

-- `RunHandler`, for any runs: the run, and whether the interval and the subscription are there.
pub record RunHandler {ℓ} (R : Type ℓ) : Type ℓ where
  pub run : Option R
  pub monitoring : Bool

-- What comes in while the node waits for a run: a change of an account, or a tick of the interval,
-- with what the health check and the request for runs give. The first request is a tick too, whose
-- health is not asked for.
pub data Arrival {ℓ} (R : Type ℓ) : Type ℓ where
  account : R → Arrival R
  tick : Result String Bool → Result String (Option R) → Arrival R

module _ {ℓ} {R : Type ℓ} where
  -- `checkRun`
  unfoldable pub check_run :
      Result String (Option R) → RunHandler R → Result String (Option R) × RunHandler R
  check_run (err e) h = (err e, h)
  check_run (ok none) h = (ok none, record h { run = none })
  check_run (ok (some r)) h = (ok (some r), record h { run = some r })

  -- What settles the promise after the request for runs.
  abbrev pub after_check : Result String (Option R) → Option (Result String R)
  after_check (err e) = some (err e)
  after_check (ok none) = none
  after_check (ok (some r)) = some (ok r)

  -- What an arrival does, and how it settles the promise, if it does. After a rejection for the
  -- health the runs are asked for all the same.
  unfoldable pub on_arrival : Arrival R → RunHandler R → Option (Result String R) × RunHandler R
  on_arrival (account r) h = (some (ok r), record h { run = some r })
  on_arrival (tick (err e) runs) h = (some (err e), h)
  on_arrival (tick (ok healthy) runs) h =
      let checked = check_run runs h in
      (if healthy then after_check checked.0 else some (err "HealthCheck failed"), checked.1)

  -- The wait for the first arrival that settles the promise; `none` where there is none.
  unfoldable pub await_run :
      List (Arrival R) → RunHandler R → Option (Result String R) × RunHandler R
  await_run [] h = (none, h)
  await_run (a ∷ arrivals) h =
      let arrived = on_arrival a h in
      elim arrived.0 [ some r ↦ (some r, arrived.1) | none ↦ await_run arrivals arrived.1 ]

  -- `startRunMonitoring`: a run that is known is returned at once.
  unfoldable pub start_run_monitoring :
      List (Arrival R) → RunHandler R → Option (Result String R) × RunHandler R
  start_run_monitoring arrivals h = elim h.run [
    | some r ↦ (some (ok r), h)
    | none ↦ await_run arrivals (record h { monitoring = true })
  ]

  unfoldable pub stop_run_monitoring : RunHandler R → RunHandler R
  stop_run_monitoring h = record h { monitoring = false }

  -- `stop` and `clean` of the run handler
  unfoldable pub stop_run_handler : RunHandler R → RunHandler R
  stop_run_handler h = record (stop_run_monitoring h) { run = none }

-- Why a job has ended.
pub data StopReason : Type 0 where
  completed stopped expired : StopReason

-- The calls of a cycle that the outside sees, in order.
pub data Call : Type 0 where
  register start run deregister : Call
  finish : StopReason → Call

-- How the promise of a cycle stands at the end.
pub data Settled : Type 0 where
  resolved pending : Settled
  rejected : String → Settled

-- What the parts of a cycle give: the error of the claim, whether the job is expired, whether it
-- starts, the error of its run, the first reason to stop, whether the node is exiting by then, and
-- the error of the upload.
pub record Cycle : Type 0 where
  pub claimed : Option String
  pub is_expired : Bool
  pub started : Result String Bool
  pub ran : Option String
  pub reason : StopReason
  pub exiting : Bool
  pub finished : Option String

-- The end of a cycle.
abbrev pub conclude_cycle : Cycle → StopReason → List Call × Settled
conclude_cycle c reason = if c.exiting then ([], pending) else elim c.finished [
  | some e ↦ (finish reason ∷ [], rejected e)
  | none ↦ (finish reason ∷ deregister ∷ [], resolved)
]

abbrev pub calling : Call → List Call × Settled → List Call × Settled
calling call (calls, settled) = (call ∷ calls, settled)

-- The part of a cycle from the start of a job that is not expired.
abbrev pub run_job : Cycle → List Call × Settled
run_job c = elim c.started [
  | err e ↦ (start ∷ [], rejected e)
  | ok false ↦ calling start (conclude_cycle c completed)
  | ok true ↦ elim c.ran [
    | some e ↦ (start ∷ run ∷ [], rejected e)
    | none ↦ calling start (calling run (conclude_cycle c c.reason))
  ]
]

-- `run` of Node.ts, after `startRunMonitoring` has given a run.
unfoldable pub run_cycle : Cycle → List Call × Settled
run_cycle c = elim c.claimed [
  | some e ↦ ([], rejected e)
  | none ↦ calling register (if c.is_expired then conclude_cycle c completed else run_job c)
]

-- What the steps of `NodeManager.start` give, in their order: the checks of the job loop and the
-- maintenance, the check of WSL, the market, the health check, the setup, the API, the check for a
-- pending run, the queue, and the race of the market's monitor and the cycle.
pub record Steps : Type 0 where
  pub checked : Option String
  pub wsl_blocked : Option String
  pub market : Result String String
  pub healthy : Result String Bool
  pub set_up : Option String
  pub api_active : Result String Bool
  pub has_pending : Result String Bool
  pub queued : Option String
  pub raced : Option String

-- How `start` goes on: it throws, or restarts.
pub data Next : Type 0 where
  throws : String → Next
  restarts : Next

-- The market whose queue the node has asked to join, whether the node is in the job loop, and how
-- `start` goes on.
pub record Started : Type 0 where
  pub asked : Option String
  pub in_job_loop : Bool
  pub next : Next

abbrev pub ending : Option String → Next
ending none = restarts
ending (some e) = throws e

-- From the check for a pending run.
abbrev pub start_work : Steps → String → Started
start_work s market = elim s.has_pending [
  | err e ↦ record { asked = none; in_job_loop = true; next = throws e }
  | ok true ↦ record { asked = none; in_job_loop = true; next = ending s.raced }
  | ok false ↦ elim s.queued [
    | some e ↦ record { asked = some market; in_job_loop = true; next = throws e }
    | none ↦ record { asked = some market; in_job_loop = true; next = ending s.raced }
  ]
]

-- From the setup.
abbrev pub start_setup : Steps → Bool → String → Started
start_setup s in_job_loop market = elim s.set_up [
  | some e ↦ record { asked = none; in_job_loop = in_job_loop; next = throws e }
  | none ↦ elim s.api_active [
    | err e ↦ record { asked = none; in_job_loop = true; next = throws e }
    | ok false ↦ record {
      asked = none;
      in_job_loop = true;
      next = throws "Node API is detected offline";
    }
    | ok true ↦ start_work s market
  ]
]

-- From the request for a market.
abbrev pub start_market : Steps → Bool → Started
start_market s in_job_loop = elim s.market [
  | err e ↦ record { asked = none; in_job_loop = in_job_loop; next = throws e }
  | ok market ↦ elim s.healthy [
    | err e ↦ record { asked = none; in_job_loop = in_job_loop; next = throws e }
    | ok false ↦ record { asked = none; in_job_loop = in_job_loop; next = restarts }
    | ok true ↦ start_setup s in_job_loop market
  ]
]

-- `NodeManager.start`
unfoldable pub start_node : Steps → Bool → Started
start_node s in_job_loop = elim (if in_job_loop then s.checked else none) [
  | some e ↦ record { asked = none; in_job_loop = in_job_loop; next = throws e }
  | none ↦ elim s.wsl_blocked [
    | some e ↦ record { asked = none; in_job_loop = in_job_loop; next = throws e }
    | none ↦ start_market s in_job_loop
  ]
]

-- The flags of a `NodeManager`; `left` is whether a signal has made it stop the node and exit.
pub record Flags : Type 0 where
  pub exiting : Bool
  pub signalled : Bool
  pub left : Bool

-- `restart` up to its first `await`, and whether it goes on.
unfoldable pub begin_restart : Flags → Bool × Flags
begin_restart f = if f.exiting then (false, f) else (true, record f { exiting = true })

-- The end of `clean`
unfoldable pub end_clean : Flags → Flags
end_clean f = record f { exiting = false }

-- The first assignment of `start`
unfoldable pub begin_start : Flags → Flags
begin_start f = record f { exiting = false }

-- The handler of SIGINT and SIGTERM.
unfoldable pub on_signal : Flags → Flags
on_signal f =
    let signalled = record f { signalled = true } in
    if f.exiting then signalled else record signalled { exiting = true; left = true }

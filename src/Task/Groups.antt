-- ===== src/Task/Groups.antt =====
-- NodeManager/node/task/TaskManager.ts: `start`, group by group, the settling of the promises that
-- a group tracks, and the end of the flow. `start` waits in `while (promises.size > 0)`, which
-- `is_done` tests. With it operations/stopAllTaskManagerOperations.ts and the background part of
-- operations/restartTaskManagerOperation.ts, which is `finish_restart`.
use nosana_node.Base.{
  String, ℕ, suc, zero, Bool, true, false, not, ◌&&◌, Option, none, some, List, [], ◌∷◌,
  if◌then◌else◌, contains, remove, Result, ok, err, recover, ◌>>=◌, is_empty, all, any,
}
use nosana_node.Base.Map
use nosana_node.Base.Map.{Map}
use nosana_node.Operation.{Operation, find_index, serves}
use nosana_node.Plan.{ExecutionContext}
use nosana_node.Repository.{Status, OpState, get_op_state, update_flow_state}
use nosana_node.Task.{
  StopReason, Progress, starting, waiting, pending, Manager, ControlError, no_dependency_context,
  get_status, set_status, change_op, stop_operation,
}
use nosana_node.Task.Runs.{set_up_operation, on_main_abort}

abbrev pub set_all : List String → Progress → Manager → Manager
set_all [] progress m = m
set_all (id ∷ ids) progress m = set_all ids progress (set_status id progress m)

-- `start`, up to the first group
unfoldable pub begin : ℕ → Manager → Manager
begin now m = set_all (Map.keys m.op_map) pending (record m {
  status = Status.running;
  flows =
      update_flow_state m.job (λ s. record s { status = Status.running; start_time = some now })
        m.flows;
})

abbrev pub is_over : Option Progress → Bool
is_over (some Progress.finished) = true
is_over (some Progress.stopped) = true
is_over _ = false

abbrev pub is_pending : Option Progress → Bool
is_pending (some Progress.pending) = true
is_pending _ = false

module _ (prepare : Operation → Option String) where
  -- The loop over the operations of a group. The map has a context for each operation, as
  -- `createDependencyMap` gives it; without one the code throws on `undefined`.
  unfoldable pub schedule_operation : ℕ → String → Manager → Result ControlError Manager
  schedule_operation now id m =
      if not (is_pending (Map.get id m.statuses))
      then ok m
      else elim (Map.get id m.dependency_map) [
        | none ↦ err no_dependency_context
        | some ctx ↦
            if all (λ dep. is_over (Map.get dep m.statuses)) ctx.dependencies
            then set_up_operation prepare now id ctx.dependents (set_status id starting m)
            else ok (set_status id waiting m)
      ]

  unfoldable pub schedule : ℕ → List String → Manager → Result ControlError Manager
  schedule now [] m = ok m
  schedule now (id ∷ ids) m = schedule_operation now id m >>= schedule now ids

  -- A group of the plan becomes the current one and is scheduled.
  unfoldable pub begin_group : ℕ → ExecutionContext → Manager → Result ControlError Manager
  begin_group now ctx m = schedule now ctx.ops (record m { current_group = some ctx.group })

  -- The rest of `restartTaskManagerOperation`, once the promise of the operation has settled: the
  -- operation runs again, with no dependents to release, unless that throws, and is unlocked. The
  -- hold is let go, so that its own promise may settle.
  unfoldable pub finish_restart : ℕ → String → Manager → Manager
  finish_restart now id m = elim (set_up_operation prepare now id [] m) [
    | ok ran ↦ record ran { locks = Map.delete id ran.locks }
    | err e ↦ record m { locks = Map.delete id m.locks }
  ]

-- `dependecyMap.get(id)?.dependents ?? []`
abbrev pub dependents_of : String → Manager → List String
dependents_of id m = elim (Map.get id m.dependency_map) [ none ↦ [] | some ctx ↦ ctx.dependents ]

-- `promise.finally`: the operations for whose dependents' end they wait are stopped. What
-- `stopTaskManagerOperation` refuses is a rejected promise that nobody awaits.
abbrev pub stop_quietly : Option String → String → Manager → Manager
stop_quietly none id m = m
stop_quietly (some group) id m = recover (stop_operation group id m) m

unfoldable pub stop_servers : String → Map Operation → Manager → Manager
stop_servers id [] m = m
stop_servers id ((candidate, op) ∷ ops) m = stop_servers id ops (
    if serves op && contains id (dependents_of candidate m)
    then stop_quietly m.current_group candidate m
    else m)

-- What the `finally` of a tracked promise does, fulfilled or rejected (`reject` has the rest).
unfoldable pub settle : String → Manager → Manager
settle id m = stop_servers id m.op_map (record m { promises = remove id m.promises })

-- The condition under which `start` leaves the group, and what it then does.
abbrev pub is_done : Manager → Bool
is_done m = is_empty m.promises

unfoldable pub end_group : Manager → Manager
end_group m = record m { current_group = none; promises = [] }

abbrev pub is_failed : Status → Bool
is_failed Status.failed = true
is_failed _ = false

abbrev pub op_states_of : Manager → List OpState
op_states_of m = elim (Map.get m.job m.flows) [ none ↦ [] | some flow ↦ flow.state.op_states ]

-- The end of `start`, after the last group
unfoldable pub conclude : ℕ → Manager → Manager
conclude now m =
    let final =
      if any (λ (s : OpState). is_failed s.status) (op_states_of m)
      then Status.failed
      else Status.success in
    record m {
      status = final;
      flows =
          update_flow_state m.job
            (λ s. record s { status = final; end_time = some now; secrets = [] }) m.flows;
    }

abbrev pub has_started : Option OpState → Bool
has_started none = false
has_started (some s) = elim (s.start_time) [
  | none ↦ false
  | some zero ↦ false
  | some (suc t) ↦ true
]

-- The loop of `stopAllTaskManagerOperations` over the operations that have not started, on the
-- flow as it was read; an operation that the job does not list ends the loop.
unfoldable pub stop_unstarted : ℕ → StopReason → List String → Manager → Manager
stop_unstarted now reason [] m = m
stop_unstarted now reason (id ∷ ids) m = elim (find_index id m.operations) [
  | none ↦ m
  | some index ↦ stop_unstarted now reason ids (
      if has_started (get_op_state m.job index m.flows)
      then m
      else change_op index
          (λ s. record s { status = get_status reason; end_time = some now; exit_code = some 0 })
          (set_status id Progress.stopped m))
]

-- The listeners of the main signal, in the order of the runs.
unfoldable pub abort_runs : (StopReason → String) → StopReason → List String → Manager → Manager
abort_runs text reason [] m = m
abort_runs text reason (id ∷ ids) m =
    abort_runs text reason ids (elim (find_index id m.operations) [
      | none ↦ m
      | some index ↦ on_main_abort text reason id index m
    ])

-- `mainAbortController.abort(reason)`
unfoldable pub abort_main : (StopReason → String) → StopReason → Manager → Manager
abort_main text reason m = elim (m.main_abort) [
  | some first ↦ m
  | none ↦ abort_runs text reason (Map.keys m.aborts) (record m { main_abort = some reason })
]

unfoldable pub stop_all : (StopReason → String) → ℕ → StopReason → Manager → Manager
stop_all text now reason m =
    let aborted = abort_main text reason (record m { status = get_status reason }) in
    if Map.has aborted.job aborted.flows
    then stop_unstarted now reason (Map.keys aborted.op_map) aborted
    else aborted

-- The end of `start` after an error, which leaves the manager's own status as it is.
unfoldable pub give_up : ℕ → Manager → Manager
give_up now m = record m {
  flows =
      update_flow_state m.job
        (λ s. record s { status = Status.failed; end_time = some now; secrets = [] }) m.flows;
}

-- A promise that the group tracks is rejected: its `finally` runs first, then `Promise.all` throws,
-- the group ends through the `finally` of its loop, whatever it still waits for, and `start` through
-- its `catch`.
unfoldable pub reject : ℕ → String → Manager → Manager
reject now id m = give_up now (end_group (settle id m))

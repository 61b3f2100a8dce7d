-- ===== src/Task.antt =====
-- NodeManager/node/task: the control state of a `TaskManager`, and the stop and the restart of an
-- operation. A method takes the manager and returns the new one; what runs after its first `await`
-- is an operation of its own (`finish_stop` here, `finish_restart` and `settle` in Groups).
-- Notifications to listeners and log output are left out.
pub mod Runs
pub mod Groups
pub mod Bootstrapping
pub mod Readiness
pub mod Keeping
pub mod Lifecycle
pub mod Launches
pub mod Control
pub mod Launching
pub mod Releasing
pub mod Endpoints
pub mod Stops
pub mod Outcomes
pub mod Conclusion
pub mod Scheduling
pub mod Returning
pub mod Preparing
pub mod GroupControl
pub mod GroupStops
pub mod Samples
mod GroupSamples
use mathlib.Core.Option
use nosana_node.Base.{
  String, str_eq, eq_iff, eq_refl, ℕ, suc, zero, ◌+◌, ◌-◌, ◌*◌, ◌/◌, ◌%◌, ◌^◌, ◌≤◌, ◌<◌, ◌≡◌, refl,
  sym, ap, ◌∙◌, ◌≢◌, ◌↔◌, ◌⊎◌, inl, inr, Bool, true, false, not, ◌&&◌, ◌||◌, Option, none, some,
  List, [], ◌∷◌, ◌++◌, map, append-nil, append_assoc, map-append, arith, if◌then◌else◌, is_some,
  or_else, contains, count, count-append, contains-append, contains-remove, contains-add_member,
  remove, add_member, IsDistinct, All, All-append, Bool-cases, Option-cases, Result, ok, err,
  >>=-eq-ok, ltb, leb, ◌==◌, length, is_empty, select, select-append, get_elem?, set, take, drop,
  all, any, length-append,
}
use nosana_node.Base.Map
use nosana_node.Base.Map.{Map}
use nosana_node.Operation.{Operation, find_index, serves, Execution}
use nosana_node.Plan.{ExecutionContext, DependencyContext, find_group}
use nosana_node.Repository.{
  Status, Flows, Flow, FlowState, OpState, OpError, Reason, JobSecrets, label, endpoints,
  EndpointSecret, offline, LogLine, get_op_state, update_op_state, update_flow_state,
  update_op_state_error, update_flow_state_secret, set_op_state_diagnostics_reason,
  update_op_state_logs,
}
use Prim.Native.String.{◌++◌ as concat}

-- `StopReason`; `other` is any value outside the known ones, undefined included.
pub data StopReason : Type 0 where
  completed expired stopped quit unknown restart other : StopReason

-- `OperationProgressStatuses`
pub data Progress : Type 0 where
  finished stopped failed running restarting stopping starting waiting pending init : Progress

pub data Lock : Type 0 where
  stopping restarting : Lock

pub data ControlError : Type 0 where
  group_not_found group_not_active invalid_op_id no_dependency_context : ControlError
  operation_locked : Lock → ControlError
  operation_not_found : String → ControlError

pub record Manager : Type 0 where
  pub job : String
  pub operations : List Operation
  pub op_map : Map Operation
  pub plan : List ExecutionContext
  pub dependency_map : Map DependencyContext
  pub flows : Flows
  -- `mainAbortController.signal`: the reason, once aborted
  pub main_abort : Option StopReason
  -- `abortControllerMap`, each with its signal
  pub aborts : Map (Option StopReason)
  pub current_group : Option String
  -- the `dependent` with which each operation was last run
  pub released_by : Map (List String)
  -- the operations that were given to the provider, `provider.runTaskManagerOperation`, latest first
  pub launched : List String
  -- the keys of `currentGroupOperationsPromises`
  pub promises : List String
  -- `lockedOperations`, of the operations
  pub locks : Map Lock
  pub statuses : Map Progress
  pub status : Status

-- `getStatus`. The answers for operations and for the flow are the same in every row.
unfoldable pub get_status : StopReason → Status
get_status completed = Status.success
get_status expired = Status.success
get_status StopReason.stopped = Status.stopped
get_status restart = Status.stopped
get_status quit = Status.failed
get_status unknown = Status.failed
get_status other = Status.failed

-- `controller?.abort(reason)`: the first reason stays.
abbrev pub signal : StopReason → Option StopReason → Option StopReason
signal reason none = some reason
signal reason (some first) = some first

abbrev pub set_status : String → Progress → Manager → Manager
set_status id progress m = record m { statuses = Map.set id progress m.statuses }

abbrev pub change_op : ℕ → (OpState → OpState) → Manager → Manager
change_op index assign m = record m { flows = update_op_state m.job index assign m.flows }

-- Whether the group is in the plan and lists the operation.
unfoldable pub in_group : String → String → Manager → Bool
in_group group id m = elim (find_group group m.plan) [
  | none ↦ false
  | some ctx ↦ contains id ctx.ops
]

abbrev pub is_stopped : Option Progress → Bool
is_stopped (some Progress.stopped) = true
is_stopped _ = false

-- The part of `stopTaskManagerOperation` before its first `await`.
unfoldable pub stop_operation : String → String → Manager → Result ControlError Manager
stop_operation group id m =
    if not (in_group group id m) then err group_not_found else elim (Map.get id m.locks) [
      | some held ↦ err (operation_locked held)
      | none ↦
          if is_stopped (Map.get id m.statuses)
          then ok m
          else ok (record m {
            locks = Map.set id Lock.stopping m.locks;
            statuses = Map.set id Progress.stopping m.statuses;
            aborts = Map.modify id (signal StopReason.stopped) m.aborts;
          })
    ]

-- The endpoints of an operation go offline, and whether it had any.
unfoldable pub take_offline : String → Map EndpointSecret → Map EndpointSecret
take_offline id [] = []
take_offline id ((expose_id, v) ∷ secrets) =
    (expose_id, if str_eq v.op_id id then record v { status = offline } else v)
    ∷ take_offline id secrets

abbrev pub has_endpoint : String → Map EndpointSecret → Bool
has_endpoint id secrets = any (λ e. str_eq e.1.op_id id) secrets

-- `secrets[this.job]`, if it is an object
unfoldable pub job_secrets : String → Flows → Map EndpointSecret
job_secrets job flows = elim (Map.get job flows) [
  | none ↦ []
  | some flow ↦ elim (Map.get job flow.state.secrets) [
    | none ↦ []
    | some (label word) ↦ []
    | some (endpoints secrets) ↦ secrets
  ]
]

unfoldable pub drop_endpoints : String → Manager → Manager
drop_endpoints id m =
    let secrets = job_secrets m.job m.flows in
    if has_endpoint id secrets
    then record m {
      flows = update_flow_state_secret m.job m.job (endpoints (take_offline id secrets)) m.flows;
    }
    else m

abbrev pub has_ended : Option OpState → Bool
has_ended none = false
has_ended (some s) = elim (s.end_time) [ none ↦ false | some zero ↦ false | some (suc t) ↦ true ]

-- The rest of `stopTaskManagerOperation`, once the promise of the operation has settled. A missing
-- operation throws after the unlocking.
unfoldable pub finish_stop : String → ℕ → Manager → Manager
finish_stop id now m =
    let released = record m {
      promises = remove id m.promises;
      locks = Map.delete id m.locks;
      statuses = Map.set id Progress.stopped m.statuses;
    } in
    elim (find_index id m.operations) [
      | none ↦ released
      | some index ↦ drop_endpoints id (
          if has_ended (get_op_state m.job index m.flows)
          then released
          else change_op index
              (λ s. record s { status = get_status StopReason.stopped; end_time = some now })
              released)
    ]

-- `${opId}::restart-block`
abbrev pub hold_name : String → String
hold_name id = concat id "::restart-block"

abbrev pub is_current : String → Option String → Bool
is_current group none = false
is_current group (some current) = str_eq current group

-- The part of `restartTaskManagerOperation` before its first `await`.
unfoldable pub restart_operation : String → String → Manager → Result ControlError Manager
restart_operation group id m =
    if not (is_some (find_group group m.plan))
    then err group_not_found
    else if not (is_current group m.current_group)
    then err group_not_active
    else elim (Map.get id m.locks) [
      | some held ↦ err (operation_locked held)
      | none ↦
          if not (Map.has id m.op_map)
          then err invalid_op_id
          else ok (record m {
            locks = Map.set id Lock.restarting m.locks;
            statuses = Map.set id Progress.restarting m.statuses;
            promises = add_member (hold_name id) m.promises;
            aborts = Map.modify id (signal restart) m.aborts;
          })
    ]

-- ===== src/Task/Runs.antt =====
-- NodeManager/node/task/operations/runTaskManagerOperation.ts: one run of an operation. Its
-- synchronous part is `run_operation`; each listener that it puts on the operation's emitter is an
-- operation of its own, on the manager and on the index of the operation. Log output and the results
-- read from the logs are left out; `prepare` gives the error of preparing the arguments, if any.
use nosana_node.Base.{
  String, ℕ, suc, zero, Bool, true, false, Option, none, some, List, [], ◌∷◌, if◌then◌else◌,
  or_else, add_member, Result, ok, err, ◌>>=◌,
}
use nosana_node.Base.Map
use nosana_node.Base.Map.{Map}
use nosana_node.Operation.{Operation, find_index}
use nosana_node.Repository.{
  Status, OpState, OpError, Reason, update_op_state_error, set_op_state_diagnostics_reason,
  update_op_state_logs,
}
use nosana_node.Task.{
  StopReason, expired, quit, other, Progress, finished, running, stopping, Manager, ControlError,
  no_dependency_context, invalid_op_id, get_status, signal, set_status, change_op,
}

abbrev pub end_at_once : ℕ → Status → OpState → OpState
end_at_once now status s = record s {
  exit_code = some 0;
  start_time = some now;
  end_time = some now;
  status = status;
}

-- Whether an operation may still be released.
abbrev pub is_unstarted : Option Progress → Bool
is_unstarted (some Progress.pending) = true
is_unstarted (some Progress.waiting) = true
is_unstarted (some Progress.init) = true
is_unstarted _ = false

-- The interpolation of the operation, which fails with a message or gives what the provider runs.
module _ (prepare : Operation → Option String) where
  -- `runTaskManagerOperation`, up to the provider's call, which `launched` records. An operation that the job
  -- does not list throws before anything is changed.
  unfoldable pub run_operation : ℕ → Operation → List String → Manager → Manager
  run_operation now op dependent m = elim (find_index op.id m.operations) [
    | none ↦ m
    | some index ↦
        let opened = record m {
          aborts = Map.set op.id none m.aborts;
          released_by = Map.set op.id dependent m.released_by;
        } in
        elim (m.main_abort) [
          | some reason ↦ change_op index (end_at_once now (get_status reason)) opened
          | none ↦ elim (prepare op) [
            | none ↦ record opened { launched = op.id ∷ opened.launched }
            | some message ↦ set_status op.id stopping (
                change_op index (end_at_once now Status.failed) (record opened {
                  flows =
                      update_op_state_logs m.job index (record { log = message; kind = "nodeerr" })
                        m.flows;
                  aborts = Map.set op.id (some other) m.aborts;
                }))
          ]
        ]
  ]

  -- `currentGroupOperationsPromises.set(id, trackGroupOperationPromise(id, setUpOperationFunc(…)))`
  unfoldable pub set_up_operation : ℕ → String → List String → Manager → Result ControlError Manager
  set_up_operation now id dependent m = elim (Map.get id m.op_map) [
    | none ↦ err invalid_op_id
    | some op ↦
        let ran = run_operation now op dependent m in
        ok (record ran { promises = add_member id ran.promises })
  ]

  -- 'healthcheck:startup:success': the loop over the dependents.
  unfoldable pub release : ℕ → List String → Manager → Result ControlError Manager
  release now [] m = ok m
  release now (id ∷ ids) m =
      (if is_unstarted (Map.get id m.statuses)
        then elim (Map.get id m.dependency_map) [
          | none ↦ err no_dependency_context
          | some ctx ↦ set_up_operation now id ctx.dependents m
        ]
        else ok m)
      >>= release now ids

  unfoldable pub on_ready : ℕ → String → Manager → Result ControlError Manager
  on_ready now id m = release now (or_else (Map.get id m.released_by) []) m

-- `abort.signal`
abbrev pub signal_of : String → Manager → Option StopReason
signal_of id m = or_else (Map.get id m.aborts) none

-- 'start'
unfoldable pub on_start : ℕ → String → ℕ → Manager → Manager
on_start now id index m =
    change_op index
      (λ s. record s {
        status = Status.running;
        start_time = some now;
        end_time = none;
        exit_code = none;
      })
      (set_status id running m)

abbrev pub exit_status : Option StopReason → ℕ → Status
exit_status (some reason) code = get_status reason
exit_status none zero = Status.success
exit_status none (suc code) = Status.failed

-- 'exit'
unfoldable pub on_exit : ℕ → String → ℕ → ℕ → Manager → Manager
on_exit now id index code m =
    change_op index
      (λ s. record s {
        logs = some (or_else s.logs []);
        exit_code = some code;
        end_time = some now;
        status = exit_status (signal_of id m) code;
      })
      (set_status id finished m)

abbrev pub error_status : Option StopReason → Status
error_status (some reason) = get_status reason
error_status none = Status.failed

-- 'error', with what it takes from the `Error`
unfoldable pub on_error : ℕ → String → ℕ → OpError → Manager → Manager
on_error now id index error m =
    let ended = λ (s : OpState). record s {
      logs = some (or_else s.logs []);
      exit_code = some 2;
      end_time = some now;
      status = error_status (signal_of id m);
    } in
    elim (signal_of id m) [
      | some reason ↦ change_op index ended (set_status id Progress.stopped m)
      | none ↦ change_op index ended (record (set_status id Progress.failed m) {
        flows = update_op_state_error m.job index error m.flows;
      })
    ]

-- 'end', which takes the listener from the main signal too
unfoldable pub on_end : String → Manager → Manager
on_end id m = record m { aborts = Map.delete id m.aborts }

-- The callback of `enforceOperationTimeout`; the text of the reason is given.
unfoldable pub on_timeout : String → ℕ → String → Manager → Manager
on_timeout id index text m = record (set_status id stopping m) {
  flows =
      set_op_state_diagnostics_reason m.job index (λ r. record r { reason = some text }) m.flows;
  aborts = Map.modify id (signal expired) m.aborts;
}

-- The reason that a flow's end writes to its operations; `text` is that of a stop reason.
abbrev pub flow_reason : (StopReason → String) → StopReason → Reason → Reason
flow_reason text expired r = record r { job_expired = true; reason = some (text expired) }
flow_reason text StopReason.stopped r = record r {
  job_stopped = true;
  reason = some (text StopReason.stopped);
}
flow_reason text quit r = record r { host_shut_down = true; reason = some (text quit) }
flow_reason text _ r = r

abbrev pub has_flow_reason : StopReason → Bool
has_flow_reason expired = true
has_flow_reason StopReason.stopped = true
has_flow_reason quit = true
has_flow_reason _ = false

-- `handleMainAbort`
unfoldable pub on_main_abort : (StopReason → String) → StopReason → String → ℕ → Manager → Manager
on_main_abort text reason id index m =
    let marked = record (set_status id stopping m) {
      aborts = Map.modify id (signal reason) m.aborts;
    } in
    if has_flow_reason reason
    then record marked {
      flows = set_op_state_diagnostics_reason m.job index (flow_reason text reason) m.flows;
    }
    else marked

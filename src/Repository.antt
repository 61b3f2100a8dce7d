-- ===== src/Repository.antt =====
-- NodeManager/repository/NodeRepository.ts: the flows that the node keeps, the changes made to
-- them, and the reporting of a database that cannot be written.
pub mod OpStates
pub mod Reports
mod Samples
use mathlib.Core.Option
use nosana_node.Base.{
  String, str_eq, eq_iff, eq_refl, ℕ, suc, zero, ◌+◌, ◌-◌, ◌*◌, ◌/◌, ◌%◌, ◌^◌, ◌≤◌, ◌<◌, ◌≡◌, refl,
  sym, ap, ◌∙◌, ◌≢◌, ◌↔◌, ◌⊎◌, inl, inr, Bool, true, false, not, ◌&&◌, ◌||◌, Option, none, some,
  List, [], ◌∷◌, ◌++◌, map, append-nil, append_assoc, map-append, arith, if◌then◌else◌, is_some,
  or_else, contains, count, count-append, contains-append, contains-remove, contains-add_member,
  remove, add_member, IsDistinct, All, All-append, Bool-cases, Option-cases, Result, ok, err,
  >>=-eq-ok, ltb, leb, ◌==◌, length, is_empty, select, select-append, get_elem?, set, take, drop,
  all, any, length-append,
}
use nosana_node.Base.Map
use nosana_node.Base.Map.{Map}
use nosana_node.Operation.{Operation, group_of}

-- The statuses that the node writes to a flow or an operation.
pub data Status : Type 0 where
  init running success stopped failed waiting_for_job_definition waiting_for_result : Status
  validation_error init_error logistics_error : Status

pub record LogLine : Type 0 where
  pub log : String
  pub kind : String

pub record OpError : Type 0 where
  pub event : String
  pub message : String
  pub code : Option ℕ

pub record Reason : Type 0 where
  pub host_shut_down : Bool
  pub job_stopped : Bool
  pub job_expired : Bool
  pub reason : Option String

pub record OpState : Type 0 where
  pub operation_id : String
  pub group : String
  pub status : Status
  pub start_time : Option ℕ
  pub end_time : Option ℕ
  pub exit_code : Option ℕ
  pub logs : Option (List LogLine)
  pub errors : Option (List OpError)
  pub reason : Option Reason

pub data Online : Type 0 where
  online offline unknown : Online

pub record EndpointSecret : Type 0 where
  pub op_id : String
  pub port : String
  pub url : String
  pub status : Online

-- The entry of a job among a flow's secrets: 'private', 'public', or its endpoints.
pub data JobSecrets : Type 0 where
  label : String → JobSecrets
  endpoints : Map EndpointSecret → JobSecrets

pub record FlowState : Type 0 where
  pub status : Status
  pub start_time : Option ℕ
  pub end_time : Option ℕ
  pub errors : Option (List String)
  pub secrets : Map JobSecrets
  pub op_states : List OpState

pub record Flow : Type 0 where
  pub job_definition : List Operation
  pub project : String
  pub state : FlowState

abbrev pub Flows : Type 0
Flows = Map Flow

-- `createDefaultOpState`
unfoldable pub create_default_op_state : Operation → OpState
create_default_op_state op = record {
  operation_id = op.id;
  group = group_of op;
  status = init;
  start_time = none;
  end_time = none;
  exit_code = none;
  logs = some [];
  errors = some [];
  reason =
      some (record {
        host_shut_down = false;
        job_stopped = false;
        job_expired = false;
        reason = none;
      });
}

-- `createInitialFlow`; the flow's id is its key.
unfoldable pub create_initial_flow :
    String → List Operation → List Operation → Status → ℕ → Option String → Flow
create_initial_flow project definition operations status timestamp error = record {
  job_definition = definition;
  project = project;
  state = record {
    status = status;
    start_time = some timestamp;
    end_time = none;
    errors = Option.map (λ e. e ∷ []) error;
    secrets = [];
    op_states = map create_default_op_state operations;
  };
}

-- The changes. Each is followed by `persist`, which does not touch the flows; a flow that is gone
-- is left alone. `Object.assign(state, fields)` is the function that writes those fields.
unfoldable pub update_flow_state : String → (FlowState → FlowState) → Flows → Flows
update_flow_state id assign flows =
    Map.modify id (λ flow. record flow { state = assign flow.state }) flows

-- `state.secrets = { ...state.secrets, [job]: secrets }`
unfoldable pub update_flow_state_secret : String → String → JobSecrets → Flows → Flows
update_flow_state_secret id job secrets =
    update_flow_state id (λ state. record state { secrets = Map.set job secrets state.secrets })

-- `updateflowStateError`, which throws where there is no flow.
unfoldable pub update_flow_state_error : String → Option Status → String → Flows → Option Flows
update_flow_state_error id status error flows =
    if Map.has id flows
    then some (
        update_flow_state id
          (λ state. record state {
            status = or_else status state.status;
            errors = some (or_else state.errors [] ++ (error ∷ []));
          })
          flows)
    else none

-- An element of an array changed in place; past the end nothing happens.
abbrev pub modify_at {ℓ} : {A : Type ℓ} → ℕ → (A → A) → List A → List A
modify_at i f [] = []
modify_at zero f (x ∷ xs) = f x ∷ xs
modify_at (suc i) f (x ∷ xs) = x ∷ modify_at i f xs

-- `opStateFor`
unfoldable pub get_op_state : String → ℕ → Flows → Option OpState
get_op_state id index flows = elim (Map.get id flows) [
  | none ↦ none
  | some flow ↦ get_elem? flow.state.op_states index
]

unfoldable pub update_op_state : String → ℕ → (OpState → OpState) → Flows → Flows
update_op_state id index assign =
    update_flow_state id
      (λ state. record state { op_states = modify_at index assign state.op_states })

abbrev pub max_logs : ℕ
max_logs = 24999

unfoldable pub append_log : LogLine → Option (List LogLine) → List LogLine
append_log entry none = entry ∷ []
append_log entry (some logs) =
    (if leb max_logs (length logs) then drop 1 logs else logs) ++ (entry ∷ [])

unfoldable pub update_op_state_logs : String → ℕ → LogLine → Flows → Flows
update_op_state_logs id index entry =
    update_op_state id index (λ s. record s { logs = some (append_log entry s.logs) })

-- `diagnosticsFor`
abbrev pub reason_of : OpState → Reason
reason_of s =
    or_else s.reason
      (record { host_shut_down = false; job_stopped = false; job_expired = false; reason = none })

unfoldable pub set_op_state_diagnostics_reason : String → ℕ → (Reason → Reason) → Flows → Flows
set_op_state_diagnostics_reason id index assign =
    update_op_state id index (λ s. record s { reason = some (assign (reason_of s)) })

unfoldable pub update_op_state_error : String → ℕ → OpError → Flows → Flows
update_op_state_error id index error =
    update_op_state id index (λ s. record s { errors = some (or_else s.errors [] ++ (error ∷ [])) })

-- What `persist` remembers of the last failure, and what it has reported, the latest first.
pub record Persistence : Type 0 where
  pub last_error : Option String
  pub last_report_at : ℕ
  pub reports : List (ℕ × String)

-- 5 minutes
abbrev pub persist_report_interval_ms : ℕ
persist_report_interval_ms = 5 * 60 * 1000

abbrev pub is_text : String → Option String → Bool
is_text message none = false
is_text message (some last) = str_eq last message

-- `persist`: the write succeeds, or fails with a message. The clock may have gone back, so the
-- difference of the times may be negative, which is below the interval as 0 is.
unfoldable pub persist : Option String → ℕ → Persistence → Persistence
persist none now p = record p { last_error = none }
persist (some message) now p =
    if is_text message p.last_error && ltb (now - p.last_report_at) persist_report_interval_ms
    then p
    else record {
      last_error = some message;
      last_report_at = now;
      reports = (now, message) ∷ p.reports;
    }

-- ===== src/Api.antt =====
-- NodeManager/node/api: the routes of the node's API, and who may use them. The middlewares that
-- check the signature of a request or of a socket's message, the dispatch of `ApiHandler`, the
-- handlers of routes/post/job-operation-actions.ts, routes/post/service-stop.ts and
-- routes/get/job-operation-info.ts. The SDK, which finds a job and checks a signature, is a
-- parameter. A handler that awaits a task manager is two steps: what it does before, and the reply.
-- Of the restart of a group, what other calls do between its awaits is left out.
pub mod Access
pub mod Checks
pub mod Chains
mod Samples
use nosana_node.Base.{
  String, str_eq, ℕ, Bool, true, false, Option, none, some, List, [], ◌∷◌, map, if◌then◌else◌,
  Result, ok, err,
}
use Prim.Native.String.{◌++◌ as concat}
use nosana_node.Base.Map
use nosana_node.Base.Map.{Map}
use nosana_node.Task.{
  Manager, Progress, Lock, ControlError, operation_locked, group_not_found, group_not_active,
  invalid_op_id, no_dependency_context, operation_not_found, stop_operation, restart_operation,
}
use nosana_node.Task.GroupControl.{
  stop_group, restart_group, get_group_status, get_current_group_status,
}

-- What the API reads of a job on the chain.
pub record Job : Type 0 where
  pub project : String
  pub timeout : ℕ

-- The calls of the SDK, each of which may throw: `jobs.get`, `authorization.validateHeader` with the
-- job's expiry, `authorization.validate`, and the wallet of the node. `Header` is what carries a
-- signature.
pub record Sdk (Header : Type 0) : Type 0 where
  pub job_of : String → Result {0, 0} String (Option Job)
  pub validate_header : Header → ℕ → String → Result {0, 0} String Bool
  pub validate : Header → String → Result {0, 0} String Bool
  pub wallet : String

pub data Body : Type 0 where
  text : String → Body
  message : String → Body
  failure : String → Body
  statuses : Map (Option Progress) → Body

pub record Reply : Type 0 where
  pub code : ℕ
  pub body : Body

abbrev pub reply_text : ℕ → String → Reply
reply_text code words = record { code = code; body = text words }

-- What a job's owner may ask of the operations.
pub data Action : Type 0 where
  restart_op stop_op : (group id : String) → Action
  restart_of_group stop_of_group : (group : String) → Action

pub data Route : Type 0 where
  act : Action → Route
  all_statuses : Route
  status_of : (id : String) → Route
  current_group : Route
  group_of : (group : String) → Route
  stop_job : Route

pub record Request (Header : Type 0) : Type 0 where
  pub job : String
  pub header : Header
  pub route : Route

-- What a request has led to when its handler returns or first awaits.
pub data Answer : Type 0 where
  replies : Reply → Answer
  -- the reply comes when the promise of the action settles
  awaits : Action → Answer

-- The events that the routes emit to the rest of the node.
pub data Event : Type 0 where
  job_stopped : (job : String) → Event

-- The `TaskManagerRegistry`, and the events emitted, the latest first.
pub record Node : Type 0 where
  pub tasks : Map Manager
  pub events : List Event

-- `verifyJobOwnerSignatureMiddleware`: the refusal, or none when it calls `next`.
unfoldable pub verify_job_owner : {H : Type 0} → Sdk H → H → String → Option Reply
verify_job_owner sdk header job =
    if str_eq job ""
    then some (reply_text 400 "Expected jobId parameter.")
    else elim (sdk.job_of job) [
      | err e ↦ some (reply_text 401 (concat "Unauthorized Request: " e))
      | ok none ↦ some (reply_text 400 (concat "Could not find job with id " job))
      | ok (some found) ↦ elim (sdk.validate_header header found.timeout found.project) [
        | err e ↦ some (reply_text 401 (concat "Unauthorized Request: " e))
        | ok true ↦ none
        | ok false ↦ some (reply_text 401 "Unauthorized Request")
      ]
    ]

-- The text of a lock, as `OPERATION_…` spells it.
abbrev lock_name : Lock → String
lock_name Lock.stopping = "STOPPING"
lock_name Lock.restarting = "RESTARTING"

-- `error.message`. `runtime` is the text of an error of the language, which no action of a route
-- throws.
abbrev pub error_message : String → ControlError → String
error_message runtime group_not_found = "GROUP_NOT_FOUND"
error_message runtime group_not_active = "GROUP_NOT_ACTIVE"
error_message runtime invalid_op_id = "INVALID_OPID"
error_message runtime no_dependency_context = runtime
error_message runtime (operation_locked lock) = concat "OPERATION_" (lock_name lock)
error_message runtime (operation_not_found id) = concat "Operation not found for ID: " id

-- The call of an action on the task manager, up to its first `await`.
unfoldable pub begin_action : Action → Manager → Result ControlError Manager
begin_action (restart_op group id) m = restart_operation group id m
begin_action (stop_op group id) m = stop_operation group id m
begin_action (restart_of_group group) m = restart_group group m
begin_action (stop_of_group group) m = stop_group group m

abbrev pub reply_message : ℕ → String → Reply
reply_message code words = record { code = code; body = message words }

abbrev pub reply_failure : String → Reply
reply_failure words = record { code = 500; body = failure words }

-- The reply of an action once its promise is fulfilled.
unfoldable pub done_reply : Action → Reply
done_reply (restart_op group id) = reply_message 202 "Operation restart initiated"
done_reply (stop_op group id) = reply_message 200 "Operation Stopped"
done_reply (restart_of_group group) = reply_message 202 "Group Operation restart initiated"
done_reply (stop_of_group group) = reply_message 200 "Group Operation Stopped"

-- The reply once it is rejected with an error of this text.
unfoldable pub failed_reply : Action → String → Reply
failed_reply (restart_op group id) e = reply_failure (concat "Failed to restart operation: " e)
failed_reply (stop_op group id) e = reply_failure (concat "Failed to Stop operation: " e)
failed_reply (restart_of_group group) e = reply_failure "Failed to restart group operations"
failed_reply (stop_of_group group) e = reply_failure "Failed to stop group operations"

-- The four handlers of actions.
unfoldable pub handle_action : Action → String → Node → Answer × Node
handle_action action job node = elim (Map.get job node.tasks) [
  | none ↦ (replies (reply_text 400 "invalid job id"), node)
  | some m ↦ elim (begin_action action m) [
    | err e ↦ (replies (failed_reply action (error_message "" e)), node)
    | ok begun ↦ (awaits action, record node { tasks = Map.set job begun node.tasks })
  ]
]

-- `getOperationsStatus`
unfoldable pub get_operations_status : Map Progress → Map (Option Progress)
get_operations_status [] = []
get_operations_status ((id, status) ∷ rest) = (id, some status) ∷ get_operations_status rest

-- `getOperationStatus`
unfoldable pub get_operation_status : String → Manager → Map (Option Progress)
get_operation_status id m = (id, Map.get id m.statuses) ∷ []

-- The handlers that read a task manager. An object, empty or not, is never falsy, so that neither
-- reply 404 is sent.
unfoldable pub read_statuses : (Manager → Map (Option Progress)) → String → Node → Reply
read_statuses read job node = elim (Map.get job node.tasks) [
  | none ↦ reply_text 400 "invalid job id"
  | some m ↦ record { code = 200; body = statuses (read m) }
]

-- `postServiceStopRoute`
unfoldable pub post_service_stop : String → Node → Answer × Node
post_service_stop job node =
    if str_eq job "" then (replies (reply_text 400 "jobId path parameter is required"), node) else (
      replies (reply_text 200 "job stopped successfully"),
      record node { events = job_stopped job ∷ node.events },
    )

-- The routes of `registerRoutes`, of those handlers.
unfoldable pub handle : Route → String → Node → Answer × Node
handle (act action) job node = handle_action action job node
handle all_statuses job node =
    (replies (read_statuses (λ m. get_operations_status m.statuses) job node), node)
handle (status_of id) job node = (replies (read_statuses (get_operation_status id) job node), node)
handle current_group job node = (replies (read_statuses get_current_group_status job node), node)
handle (group_of group) job node = (replies (read_statuses (get_group_status group) job node), node)
handle stop_job job node = post_service_stop job node

-- A request under `/job/:jobId/`: the middleware, and the handler if it calls `next`.
unfoldable pub serve : {H : Type 0} → Sdk H → Request H → Node → Answer × Node
serve sdk request node = elim (verify_job_owner sdk request.header request.job) [
  | some refusal ↦ (replies refusal, node)
  | none ↦ handle request.route request.job node
]

-- The routes of the socket, and what has become of it after a message.
pub data SocketRoute : Type 0 where
  logs task_logs states : SocketRoute

pub data Socket : Type 0 where
  closed : ℕ → String → Socket
  routed : SocketRoute → Socket
  -- neither closed nor answered
  silent : Socket

-- `{ path, header, body }`, with the body's `jobAddress`
pub record Message (Header : Type 0) : Type 0 where
  pub path : String
  pub header : Header
  pub job : String

-- The end of the two middlewares, on whether the signature is accepted.
abbrev pub admit : SocketRoute → Result {0, 0} String Bool → Socket
admit route (err e) = closed 4001 "Unauthorized Request"
admit route (ok true) = routed route
admit route (ok false) = silent

-- `sdk.authorization.validate(…) || sdk.authorization.validate(…)`
abbrev pub or_validate :
    Result {0, 0} String Bool → Result {0, 0} String Bool → Result {0, 0} String Bool
or_validate (ok false) second = second
or_validate first second = first

-- The common part of the middlewares: the job, if there is one.
unfoldable pub with_job : {H : Type 0} → Sdk H → String → (Job → Socket) → Socket
with_job sdk job next =
    if str_eq job ""
    then closed 1008 "Expected body to contain jobAddress."
    else elim (sdk.job_of job) [
      | err e ↦ closed 4001 (concat "Unauthorized Request: " e)
      | ok none ↦ closed 1008 (concat "Could not find job with id " job)
      | ok (some found) ↦ next found
    ]

-- `verifyWSJobOwnerSignatureMiddleware`
unfoldable pub verify_owner : {H : Type 0} → Sdk H → SocketRoute → Message H → Socket
verify_owner sdk route m =
    with_job sdk m.job (λ found. admit route (sdk.validate m.header found.project))

-- `verifyWSNodeOrJobOwnerSignatureMiddleware`
unfoldable pub verify_node_or_owner : {H : Type 0} → Sdk H → SocketRoute → Message H → Socket
verify_node_or_owner sdk route m = with_job sdk m.job (λ found.
    admit route
      (or_validate (sdk.validate m.header found.project) (sdk.validate m.header sdk.wallet)))

-- The listener of `message`; none is a message that does not parse.
unfoldable pub on_message : {H : Type 0} → Sdk H → Option (Message H) → Socket
on_message sdk none = closed 1011 "Internal Server Error"
on_message sdk (some m) =
    if str_eq m.path "/log"
    then verify_owner sdk logs m
    else if str_eq m.path "/flog"
    then verify_owner sdk task_logs m
    else if str_eq m.path "/status"
    then verify_node_or_owner sdk states m
    else closed 3003 "Invalid Path"

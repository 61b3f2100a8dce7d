-- ===== src/Task/GroupControl.antt =====
-- NodeManager/node/task/operations/stopTaskManagerGroupOperation.ts,
-- restartTaskManagerGroupOperation.ts and getOperationsInfos.ts, and TaskManagerRegistry.ts: the
-- control of all operations of a group, and of the groups of all jobs. A call whose promise is
-- rejected leaves the manager as it was, and the loop goes on.
use nosana_node.Base.{
  String, Bool, true, false, Option, none, some, List, [], ◌∷◌, if◌then◌else◌, Result, ok, err,
  recover,
}
use nosana_node.Base.Map
use nosana_node.Base.Map.{Map}
use nosana_node.Plan.{find_group}
use nosana_node.Task.{
  Manager, Progress, ControlError, group_not_found, group_not_active, stop_operation,
  restart_operation, is_current,
}
use nosana_node.Task.Groups.{set_all}

-- `stopTaskManagerOperation(group, id).catch(…)`, for each operation
unfoldable pub stop_each : String → List String → Manager → Manager
stop_each group [] m = m
stop_each group (id ∷ ids) m = stop_each group ids (recover (stop_operation group id m) m)

-- `stopTaskManagerGroupOperations`, up to its `await`
unfoldable pub stop_group : String → Manager → Result ControlError Manager
stop_group group m = elim (find_group group m.plan) [
  | none ↦ err group_not_found
  | some ctx ↦
      if is_current group m.current_group
      then ok (stop_each group ctx.ops (set_all ctx.ops Progress.stopping m))
      else err group_not_active
]

unfoldable pub restart_each : String → List String → Manager → Manager
restart_each group [] m = m
restart_each group (id ∷ ids) m = restart_each group ids (recover (restart_operation group id m) m)

-- `restartTaskManagerGroupOperations`
unfoldable pub restart_group : String → Manager → Result ControlError Manager
restart_group group m = elim (find_group group m.plan) [
  | none ↦ err group_not_found
  | some ctx ↦
      if is_current group m.current_group
      then ok (restart_each group ctx.ops m)
      else err group_not_active
]

-- `record[opId] = this.operationStatus.get(opId) ?? null`, for each operation
unfoldable pub statuses_of : List String → Map Progress → Map (Option Progress)
statuses_of [] statuses = []
statuses_of (id ∷ ids) statuses = (id, Map.get id statuses) ∷ statuses_of ids statuses

-- `getGroupStatus`
unfoldable pub get_group_status : String → Manager → Map (Option Progress)
get_group_status group m = elim (find_group group m.plan) [
  | none ↦ []
  | some ctx ↦ statuses_of ctx.ops m.statuses
]

-- `getCurrentGroupStatus`
unfoldable pub get_current_group_status : Manager → Map (Option Progress)
get_current_group_status m = elim (m.current_group) [
  | none ↦ []
  | some group ↦ get_group_status group m
]

abbrev is_running : Option Progress → Bool
is_running (some Progress.running) = true
is_running _ = false

-- The loop of `restartRunningOperations` over the operations of one job.
unfoldable pub restart_running : String → Map (Option Progress) → Manager → Manager
restart_running group [] m = m
restart_running group ((id, status) ∷ statuses) m =
    restart_running group statuses
      (if is_running status then recover (restart_operation group id m) m else m)

-- `restartRunningOperations`, on one job
unfoldable pub restart_running_operations : Manager → Manager
restart_running_operations m = elim (m.current_group) [
  | none ↦ m
  | some group ↦ restart_running group (get_current_group_status m) m
]

-- `TaskManagerRegistry.restartRunningOperations`
unfoldable pub restart_all : Map Manager → Map Manager
restart_all [] = []
restart_all ((job, m) ∷ managers) = (job, restart_running_operations m) ∷ restart_all managers

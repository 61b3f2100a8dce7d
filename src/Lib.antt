-- ===== src/Lib.antt =====
-- A model of the core of the Nosana node: how a job's operations are planned, scheduled, stopped
-- and restarted, what is recorded of them, and how their logs and statistics are read.
--
-- A job definition lists operations, which name what they depend on and the group they run in. A
-- `TaskManager` (src/NodeManager/node/task/TaskManager.ts) makes from it a map of operations, an
-- execution plan and a dependency map, runs the groups one after the other, and keeps the state of
-- every operation in the repository. The provider runs the containers and reports on an emitter;
-- logs and statistics reach the manager from the streams of the container.
--
-- The files:
-- - Base: lists, Boolean tests, results, JavaScript's maps as association lists in insertion order
--   (Base/Map) and the last n of a sequence (Base/Window).
-- - Operation: an operation as far as the node reads it, and lookups in a job.
-- - Plan: src/NodeManager/node/task/executions. `create_operation_map` is createOperationMap,
--   `validate_execution_plan` is validateExecutionPlan, `create_execution_plan` is
--   createExecutionPlan, `create_dependency_map` is createDependencyMap; `build` composes them as
--   `TaskManager.build` does. `setHost` is a parameter, on a store of any type. Proofs stand in
--   Plan/Operations, Plan/Validation, Plan/Groups, Plan/Links and Plan/Dependencies.
-- - Repository: src/NodeManager/repository/NodeRepository.ts and
--   src/NodeManager/node/task/helpers. A flow is looked up by its id, the state of an operation by
--   its index; `Object.assign` is a function on the state. `persist` is the throttled report of a
--   database that cannot be written.
-- - Stats: src/NodeManager/node/task/loggers/StatsBuffer.ts and statsManager.ts.
-- - Logs: src/NodeManager/node/task/loggers/logManager.ts; proofs in Logs/Times.
-- - Health: src/NodeManager/provider/ExposedPortHealthCheck.ts, with timers by their handles and
--   what a probe gives as a parameter; proofs in Health/Checks and Health/Restarts.
-- - Frames: src/NodeManager/provider/utils/parseBuffer.ts, and the handler of a followed log
--   stream in src/NodeManager/provider/ContainerStateManager.ts.
-- - Task: the control state of a `TaskManager`. Task.antt has the record `Manager`, and stop and
--   restart (src/NodeManager/node/task/operations/stopTaskManagerOperation.ts and
--   restartTaskManagerOperation.ts); Task/Runs one run of an operation and its listeners
--   (runTaskManagerOperation.ts); Task/Groups the scheduling of a group, the settling of promises,
--   the end of a restart, of a group and of the flow (TaskManager.ts) and the stop of the whole
--   flow (stopAllTaskManagerOperations.ts). Proofs stand in Task/Control, Task/Launching,
--   Task/Releasing, Task/Scheduling, Task/Returning, Task/Outcomes, Task/Conclusion,
--   Task/Stops and Task/Endpoints; Task/Launches, with Task/Launches/Scheduling and
--   Task/Launches/Releasing, shows what is given to the provider. Task/Preparing is the preparation of the arguments as a part of
--   a run; Task/GroupControl the stop, the restart and the states of a whole group
--   (stopTaskManagerGroupOperation.ts, restartTaskManagerGroupOperation.ts, getOperationsInfos.ts)
--   and `TaskManagerRegistry.restartRunningOperations`, with proofs in Task/GroupStops;
--   Task/Bootstrapping the constructor and `bootstrap` (TaskManager.ts), with proofs in
--   Task/Readiness, and in Task/Lifecycle for what happens after it in any order.
-- - Json: the values that the node passes around as `unknown`, and the engine that parses and
--   prints them.
-- - Literals, Interpolate: src/NodeManager/node/task/globalStore/interpolateOperation.ts and
--   getByPath.ts, in their strict form. A matcher for each regular expression, `resolve` and
--   `interpolate_operation`; proofs in Literals/Dots, Interpolate/Tokens, Interpolate/Unresolved,
--   Interpolate/Texts and Interpolate/Plain.
-- - Collections: transformCollections.ts, finalizeEnv.ts and stanatizeArrays.ts of the same
--   directory, and `prepare_args`, their chain; proofs in Collections/Markers, Collections/Fuel
--   and Collections/Env.
-- - Store: the setters of the global store, and setDefaults.ts; proofs in Store/Results.
-- - Resources: src/NodeManager/node/resource, with image/imageManager.ts in Resources/Images and
--   volume/volumeManager.ts in Resources/Volumes; proofs in Resources/Resync, Resources/Pruning
--   and Resources/Downloads. The container runtime is a parameter, over a state of its own.
-- - Expiry: src/NodeManager/node/expiry/expiryHandler.ts; proofs in Expiry/Timers.
-- - Jobs: src/NodeManager/node/job, with jobExternalUtil.ts and the start of jobHandler.ts in
--   Jobs.antt and JobRegistry.ts in Jobs/Registry; proofs in Jobs/Fetching, Jobs/Starting and
--   Jobs/Resuming, which puts the constructor and the bootstrap of a task manager under a start.
-- - Polling: src/NodeManager/provider/ContainerStateManager.ts, the polls and restarts of a
--   container; proofs in Polling/Exits.
-- - Podman: src/NodeManager/provider/podmanManager/PodmanManager.ts, over what docker has for the
--   container; proofs in Podman/Recreating, with a step relation for calls in any order.
-- - Provider: src/NodeManager/provider/Provider.ts, the run of a container operation as far as its
--   events, the names of its containers and their arguments; proofs in Provider/Runs,
--   Provider/Names and Provider/Arguments.
-- - Market: src/NodeManager/node/market/marketHandler.ts, and `queue` of
--   src/NodeManager/node/Node.ts; proofs in Market/Requests and Market/Queues.
-- - Node: src/NodeManager/index.ts, `run` of src/NodeManager/node/Node.ts and
--   src/NodeManager/node/run/runHandler.ts; proofs in Node/Cycles.
-- - Api: src/NodeManager/node/api, the signatures of requests and messages, the routes that act on
--   task managers and those that read their statuses, with proofs in Api/Access; the checks of the
--   proxy by ApiHandler.ts in Api/Checks, with a step relation in Api/Chains.
-- - Update: src/version/index.ts, src/exitCodes.ts and src/cli/commands/start/action.ts; the wrapper
--   auto-update/src/index.ts in Update/Wrapper; proofs in Update/Versions and Update/Loop.
-- - The Samples module of a part has its tests and examples.
--
-- Asynchrony: what a method does before its first `await` is one operation on the manager, and what
-- it does after is another (`stop_operation` and `finish_stop`, `restart_operation` and
-- `finish_restart`); a promise that a group tracks is a name in `promises`, and `settle` is what its
-- `finally` does. The order of these steps is left open.
--
-- Bounds and fuel: the binary search runs on the length of the buffer as fuel, and its interval
-- shrinks by one at least in each round; the midpoint is taken on 32 bits, as `>>> 1` does, so the
-- theorems ask for a buffer within its capacity of 17280. `parse_log_frames` runs on the length of
-- the buffer, of which each frame takes eight bytes at least. `string_tokens` and `text_items`
-- parse texts that they find in texts; they run on one more than the characters of the first text,
-- which is enough since the texts in what `JSON.parse` gives are shorter than what it read. Times
-- are milliseconds and natural numbers; the delay of a timer is taken on 31 bits, as `setTimeout`
-- does.
--
-- Parameters: the platform's UTF-8 decoder, its clock, `JSON` and `trim` (the record `Engine`), the
-- container runtime (the record `Docker`), the services of a job (`Services`) and the bootstrap of
-- its task, which Jobs/Resuming gives, the chain's jobs and signatures (`Sdk`), `setHost`, and the
-- identifiers of exposed endpoints.
--
-- Not modelled: log output, notifications, the progress bars, the results that are read from logs,
-- the calls of health checks and endpoints by a run, the proxies of exposed ports, the Docker and
-- Podman clients behind the runtime, the end of a job and its account on the chain, the streams and
-- the other routes of the API, the state shown to a user, staking and balances, and the services of
-- the host manager.
-- They are input and output, formatting, or calls of services; what the parts above need of them
-- is a parameter.
pub mod Base
pub mod Operation
pub mod Plan
pub mod Stats
pub mod Frames
pub mod Repository
pub mod Task
pub mod Logs
pub mod Health
pub mod Json
pub mod Literals
pub mod Interpolate
pub mod Collections
pub mod Store
pub mod Resources
pub mod Expiry
pub mod Jobs
pub mod Polling
pub mod Update
pub mod Market
pub mod Podman
pub mod Provider
pub mod Node
pub mod Api

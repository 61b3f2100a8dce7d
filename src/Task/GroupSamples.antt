-- ===== src/Task/GroupSamples.antt =====
-- The stop of a whole group, and an operation whose arguments do not resolve.
use mathlib.Core.Option
use nosana_node.Base.{String, ◌≡◌, refl, none, some, [], ◌∷◌, recover, Result, ok}
use nosana_node.Base.Map
use nosana_node.Json.{Value, str, obj, end, field, Engine}
use nosana_node.Literals.{ops}
use nosana_node.Interpolate.{ArgsError}
use nosana_node.Operation.{Operation}
use nosana_node.Plan.{
  find_group, BuildError, Built, ExecutionContext, build, create_dependency_map,
  create_operation_map, collect_operations, validate_execution_plan, plan_errors, operation_errors,
  dependency_errors, create_execution_plan, plan_loop, add_to_group,
}
use nosana_node.Task.{
  Manager, Progress, Lock, StopReason, stop_operation, in_group, restart_operation,
}
use nosana_node.Task.Groups.{begin, begin_group, settle, stop_servers}
use nosana_node.Task.Bootstrapping.{Draft, bootstrap, built_manager, init_flow}
use nosana_node.Task.Lifecycle.{Reach, here, next, begins, stops, settles, begin_group-Reach}
use nosana_node.Task.GroupControl.{stop_group, stop_each}
use nosana_node.Task.GroupStops.{stop_group-Stops}
use nosana_node.Task.Samples.{api, runs, never_fails}

-- The database is being restarted when its group is told to stop.
abbrev renewed : Manager
renewed = recover (restart_operation "db" "db" runs) runs

abbrev halted : Manager
halted = recover (stop_group "db" renewed) renewed

stop_group-Stops_example :
    (Map.get "db" halted.statuses ≡ some Progress.stopping)
    × (Map.get "db" halted.locks ≡ some Lock.restarting)
    × (Map.get "db" halted.aborts ≡ some (some StopReason.restart))
unfolding stop_group stop_each stop_operation restart_operation in_group find_group Map.get Map.set
    Map.modify
stop_group-Stops_example =
    stop_group-Stops "db" (record { group = "db"; ops = "db" ∷ "api" ∷ [] }) renewed halted "db"
      refl refl

abbrev engine : Engine
engine = record { parse = λ s. none; stringify = λ v. ""; trim = λ s. s; decimal = λ n. "0" }

abbrev args_of : Operation → Value
args_of op = obj (field "image" (str "%%ops.seed.results.image%%") end)

abbrev message_of : ArgsError → String
message_of error = "unresolved"

-- The database, in a group that it declares.
abbrev server : Operation
server = record {
  id = "db";
  execution = some (record {
    group = some "db";
    depends_on = none;
    stop_if_dependent_stops = none;
    timeout = none;
  });
}

abbrev draft : Draft
draft = record { job = "job"; project = "project"; definition = some (server ∷ api ∷ []) }

abbrev same_host : String → Unit {0} → Result BuildError (Unit {0})
same_host id s = ok s

abbrev same_store : Unit {0} → Unit {0}
same_store s = s

abbrev planned_pair : ExecutionContext
planned_pair = record { group = "db"; ops = "db" ∷ "api" ∷ [] }

abbrev pair_built : Built (Unit {0})
pair_built = record {
  op_map = ("db", server) ∷ ("api", api) ∷ [];
  plan = planned_pair ∷ [];
  dependency_map = create_dependency_map (server ∷ api ∷ []);
  store = tt;
}

abbrev booted : Manager
booted =
    built_manager draft (server ∷ api ∷ []) pair_built
      (init_flow same_host same_store draft (server ∷ api ∷ []) 5 tt []).0

boots : bootstrap same_host same_store draft 5 tt [] ≡ ok (booted, tt)
unfolding bootstrap build init_flow create_operation_map collect_operations validate_execution_plan
    plan_errors operation_errors dependency_errors create_execution_plan plan_loop add_to_group
    Map.get Map.set
boots = refl

-- The group has begun, one of its operations has been stopped, and the other has settled.
abbrev lived : Manager
lived = settle "api" (recover (stop_operation "db" "db" (begin 7 booted)) (begin 7 booted))

lived-Reach : Reach never_fails booted lived
lived-Reach = next (next (next here (begins 7)) (stops "db" "db")) (settles "api")

begin_group-Reach_example :
    (ran : Manager) × (begin_group never_fails 9 planned_pair lived ≡ ok ran)
unfolding find_group stop_operation settle stop_servers begin in_group Map.get Map.set
begin_group-Reach_example =
    begin_group-Reach never_fails same_host same_store draft 5 9 tt tt [] booted lived "db"
      planned_pair boots lived-Reach refl

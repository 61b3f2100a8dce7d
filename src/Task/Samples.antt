-- ===== src/Task/Samples.antt =====
-- A manager with a database and a service that waits for it, before and while it runs.
use mathlib.Core.Option
use nosana_node.Base.{
  ◌||◌, String, eq_iff, ◌≡◌, refl, true, false, Option, none, some, [], ◌∷◌, arith, contains, ok,
  recover,
}
use nosana_node.Base.Map
use nosana_node.Base.Map.{Map}
use nosana_node.Operation.{Operation, find_index}
use nosana_node.Plan.{DependencyContext, find_group}
use nosana_node.Repository.{
  Status, Flow, OpError, EndpointSecret, endpoints, online, create_default_op_state,
  create_initial_flow, get_op_state,
}
use nosana_node.Task.{
  StopReason, pending, running, waiting, Manager, is_stopped, in_group, stop_operation,
  restart_operation,
}
use nosana_node.Task.Runs.{run_operation, set_up_operation, on_exit, on_error}
use nosana_node.Task.Groups.{schedule_operation, schedule, is_pending}
use nosana_node.Task.Outcomes.{status_at, stop_operation-ends}
use nosana_node.Task.Launching.{IsKeyed}
use nosana_node.Task.Runs.{release, is_unstarted}
use nosana_node.Task.Stops.{are_listed}
use nosana_node.Task.Launches.{launches}
use nosana_node.Task.Launches.Scheduling.{schedule-launched}
use nosana_node.Task.Launches.Releasing.{release-launched}
use nosana_node.Task.Returning.{are_known}
use nosana_node.Task.Scheduling.{are_over, schedule-waits}

abbrev pub db : Operation
db = record { id = "db"; execution = none }

abbrev pub api : Operation
api = record {
  id = "api";
  execution = some (record {
    group = some "db";
    depends_on = some ("db" ∷ []);
    stop_if_dependent_stops = none;
    timeout = none;
  });
}

abbrev pub db_links : DependencyContext
db_links = record { dependencies = []; dependents = "api" ∷ [] }

abbrev pub api_links : DependencyContext
api_links = record { dependencies = "db" ∷ []; dependents = [] }

abbrev pub endpoint : EndpointSecret
endpoint = record { op_id = "db"; port = "80"; url = "db.example"; status = online }

abbrev pub with_endpoint : Flow → Flow
with_endpoint flow = record flow {
  state = record flow.state { secrets = ("job", endpoints (("web", endpoint) ∷ [])) ∷ [] };
}

-- The group has begun, and nothing is scheduled yet.
abbrev pub begun : Manager
begun = record {
  job = "job";
  operations = db ∷ api ∷ [];
  op_map = ("db", db) ∷ ("api", api) ∷ [];
  plan = record { group = "db"; ops = "db" ∷ "api" ∷ [] } ∷ [];
  dependency_map = ("db", db_links) ∷ ("api", api_links) ∷ [];
  flows =
      (
        "job",
        with_endpoint (create_initial_flow "project" [] (db ∷ api ∷ []) Status.running 5 none),
      )
      ∷ [];
  main_abort = none;
  aborts = [];
  current_group = some "db";
  released_by = [];
  launched = [];
  promises = [];
  locks = [];
  statuses = ("db", pending) ∷ ("api", pending) ∷ [];
  status = Status.running;
}

-- The database runs, and the service waits for it.
abbrev pub runs : Manager
runs = record begun {
  aborts = ("db", none) ∷ [];
  released_by = ("db", "api" ∷ []) ∷ [];
  promises = "db" ∷ [];
  statuses = ("db", running) ∷ ("api", waiting) ∷ [];
}

abbrev pub never_fails : Operation → Option String
never_fails op = none

abbrev crash : OpError
crash = record { event = "operation-error"; message = "gone"; code = none }

abbrev words : StopReason → String
words reason = "a reason"

begun-IsKeyed : IsKeyed begun.op_map
unfolding Map.get
begun-IsKeyed id op h = ground (arith, eq_iff "db" id, eq_iff "api" id)

abbrev told : Manager
told = recover (stop_operation "db" "db" runs) runs

stop_told : stop_operation "db" "db" runs ≡ ok told
unfolding stop_operation in_group find_group Map.get
stop_told = refl

abbrev restarted : Manager
restarted = recover (restart_operation "db" "db" runs) runs

db_running : is_stopped (Map.get "db" runs.statuses) ≡ false
unfolding Map.get
db_running = refl

db_signal : Map.get "db" runs.aborts ≡ some none
unfolding Map.get
db_signal = refl

-- The status that the database has at first is there to be replaced.
db_status : status_at 0 runs ≡ some Status.init
unfolding get_op_state create_initial_flow create_default_op_state Map.get
db_status = refl

stop_operation-ends_example :
    (status_at 0 (on_exit 9 "db" 0 137 told)
      ≡ Option.map (λ (s : Status). Status.stopped) (status_at 0 runs))
    × (status_at 0 (on_error 9 "db" 0 crash told)
        ≡ Option.map (λ (s : Status). Status.stopped) (status_at 0 runs))
stop_operation-ends_example =
    stop_operation-ends "db" "db" 9 0 137 crash runs told stop_told db_running db_signal

abbrev scheduled : Manager
scheduled = recover (schedule never_fails 9 ("db" ∷ "api" ∷ []) begun) begun

group_scheduled : schedule never_fails 9 ("db" ∷ "api" ∷ []) begun ≡ ok scheduled
unfolding schedule schedule_operation set_up_operation run_operation find_index Map.get Map.set
group_scheduled = refl

db_pending : is_pending (Map.get "db" begun.statuses) ≡ true
unfolding Map.get
db_pending = refl

api_pending : is_pending (Map.get "api" begun.statuses) ≡ true
unfolding Map.get
api_pending = refl

db_linked : Map.get "db" begun.dependency_map ≡ some db_links
unfolding Map.get
db_linked = refl

api_linked : Map.get "api" begun.dependency_map ≡ some api_links
unfolding Map.get
api_linked = refl

api_not_ready : are_over never_fails api_links.dependencies begun ≡ false
unfolding Map.get
api_not_ready = refl

db_known : Map.get "db" begun.op_map ≡ some db
unfolding Map.get
db_known = refl

schedule-launched_example :
    (contains "db" scheduled.promises ≡ true)
    × (contains "db" scheduled.launched
        ≡ (launches never_fails begun db || contains "db" begun.launched))
unfolding find_index
schedule-launched_example =
    schedule-launched never_fails 9 0 ("db" ∷ "api" ∷ []) "db" db db_links begun scheduled
      begun-IsKeyed group_scheduled refl db_pending db_known refl db_linked refl

schedule-waits_example :
    (Map.get "api" scheduled.statuses ≡ some waiting)
    × (contains "api" scheduled.promises ≡ contains "api" begun.promises)
schedule-waits_example =
    schedule-waits never_fails 9 ("db" ∷ "api" ∷ []) "api" api_links begun scheduled begun-IsKeyed
      group_scheduled refl api_pending api_linked api_not_ready

abbrev released : Manager
released = recover (release never_fails 9 ("api" ∷ []) runs) runs

api_released : release never_fails 9 ("api" ∷ []) runs ≡ ok released
unfolding release set_up_operation run_operation find_index Map.get Map.set
api_released = refl

api_waits : is_unstarted (Map.get "api" runs.statuses) ≡ true
unfolding Map.get
api_waits = refl

api_known : Map.get "api" runs.op_map ≡ some api
unfolding Map.get
api_known = refl

release-launched_example :
    (contains "api" released.promises ≡ true)
    × (contains "api" released.launched
        ≡ (launches never_fails runs api || contains "api" runs.launched))
unfolding find_index
release-launched_example =
    release-launched never_fails 9 1 ("api" ∷ []) "api" api runs released begun-IsKeyed api_released
      refl api_waits api_known refl

both_listed : are_listed runs.operations ("db" ∷ "api" ∷ []) ≡ true
unfolding find_index
both_listed = refl

both_known : are_known ("db" ∷ "api" ∷ []) begun ≡ true
unfolding Map.get
both_known = refl

-- ===== src/Jobs/Samples.antt =====
-- Jobs whose services answer on their third attempt, one with an invalid definition, and one whose
-- result cannot be delivered.
use mathlib.Core.Option
use nosana_node.Base.{
  String, ℕ, suc, zero, ◌≡◌, refl, true, false, Option, none, some, [], ◌∷◌, Result, ok, err,
  contains, str_eq, if◌then◌else◌,
}
use nosana_node.Base.Map
use nosana_node.Repository.{Flows, Status, create_initial_flow}
use nosana_node.Jobs.{
  JobDefinition, Services, JobState, start, resolve_result, no_flow, retrieve_with_retry,
  retrieve_from, resolve_job_definition, start_definition, validate, start_task,
}
use nosana_node.Jobs.Registry.{
  Registry, settle_cleanups, settle_cleanups-get, cleanup_status, is_stale_cleanup_error,
}
use nosana_node.Resources.{includes}
use nosana_node.Literals.{strip}
use nosana_node.Plan.{BuildError}
use nosana_node.Task.Bootstrapping.{BootError}
use nosana_node.Jobs.Resuming.{resume, start-resume}
use nosana_node.Jobs.Starting.{start_unrecorded, start-tasks, resolve_result_undelivered}

abbrev definition : JobDefinition
definition = record { ops = []; send = none; receive = some "api" }

abbrev late : ℕ → String → Result String JobDefinition
late zero hash = err "timeout"
late (suc zero) hash = err "timeout"
late (suc (suc n)) hash = ok definition

abbrev services : Option String → Services
services invalid = record {
  retrieve = late;
  load = λ kind id. err "no answer";
  deliver = λ kind id state status. err ("refused", "Error: refused");
  validation = λ d. invalid;
}

abbrev idle : JobState
idle = record { flows = []; tasks = "other" ∷ [] }

abbrev boot : String → Flows → Result String Flows
boot id flows = ok (Map.set id (create_initial_flow "project" [] [] Status.init 5 none) flows)

abbrev failing_flow : Flows
failing_flow = Map.set "job" (create_initial_flow "project" [] [] Status.failed 5 (some "first")) []

abbrev cleanup : String → Result {0, 0} String Unit
cleanup id =
    if str_eq id "a"
    then ok tt
    else if str_eq id "b"
    then err "Error: AccountNotInitialized."
    else err "timeout"

abbrev registry : Registry ℕ ℕ
registry = record {
  jobs = ("a", 1) ∷ ("b", 2) ∷ ("c", 3) ∷ [];
  runs = ("a", 4) ∷ ("b", 5) ∷ ("c", 6) ∷ [];
}

start_unrecorded_example :
    start (services (some "no ops")) boot "job" "hash" "project" 7 false idle ≡ (idle, err no_flow)
unfolding retrieve_with_retry retrieve_from Map.get
start_unrecorded_example =
    start_unrecorded (services (some "no ops")) boot "job" "hash" "project" 7 idle definition
      "no ops" refl refl refl refl

start-tasks_example :
    contains "job" (start (services none) boot "job" "hash" "project" 7 false idle).0.tasks ≡ true
unfolding start Map.get resolve_job_definition retrieve_with_retry retrieve_from start_definition
    validate start_task
start-tasks_example =
    start-tasks (services none) boot "job" "hash" "project" 7 false idle true refl refl

resolve_result_undelivered_example :
    (resolve_result (services none) "job" "hash" failing_flow).1
    ≡ ok (
        some (record {
          status = Status.failed;
          start_time = some 5;
          end_time = none;
          errors = some ("first" ∷ "refused" ∷ "Error: refused" ∷ []);
          secrets = [];
          op_states = [];
        }))
unfolding retrieve_with_retry retrieve_from Map.get Map.set create_initial_flow
resolve_result_undelivered_example =
    resolve_result_undelivered (services none) boot "job" "hash" "api" "refused" "Error: refused"
      failing_flow definition (create_initial_flow "project" [] [] Status.failed 5 (some "first"))
      refl refl refl refl refl

settle_cleanups-get_example :
    (Map.get "b" (settle_cleanups cleanup ("c" ∷ "b" ∷ "a" ∷ []) registry).jobs ≡ none)
    × (Map.get "b" (settle_cleanups cleanup ("c" ∷ "b" ∷ "a" ∷ []) registry).runs ≡ none)
unfolding cleanup_status is_stale_cleanup_error includes strip
settle_cleanups-get_example = settle_cleanups-get cleanup ("c" ∷ "b" ∷ "a" ∷ []) "b" registry

abbrev same_host : String → Unit {0} → Result BuildError (Unit {0})
same_host id s = ok s

abbrev same_store : Unit {0} → Unit {0}
same_store s = s

abbrev boot_text : BootError → String
boot_text e = "undefined is not iterable"

-- A job that was running when the node was restarted.
abbrev interrupted : JobState
interrupted = record {
  flows = ("job", create_initial_flow "project" [] [] Status.running 5 none) ∷ [];
  tasks = [];
}

start-resume_example :
    let started =
      start
        (services none)
        (resume same_host same_store boot_text tt "project" 9)
        "job"
        "hash"
        "project"
        9
        false
        interrupted in
    (started.1 ≡ ok false)
    × (started.0.tasks ≡ [])
    × (Option.map (λ f. f.state.status) (Map.get "job" started.0.flows) ≡ some Status.init_error)
    × (Option.map (λ f. f.state.errors) (Map.get "job" started.0.flows)
        ≡ some (some ("undefined is not iterable" ∷ [])))
unfolding Map.get create_initial_flow
start-resume_example =
    start-resume same_host same_store boot_text tt "project" 9 (services none) "job" "hash" false
      interrupted (create_initial_flow "project" [] [] Status.running 5 none) refl

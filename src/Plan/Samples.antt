-- ===== src/Plan/Samples.antt =====
-- A job of four operations, of which one is a group of its own, and what is planned for it.
use nosana_node.Base.{
  String, ◌≡◌, refl, ◌↔◌, Bool, true, false, Option, none, some, List, [], ◌∷◌, All, Result, ok,
  err,
}
use nosana_node.Base.Map
use nosana_node.Base.Map.{Map}
use nosana_node.Operation.{Operation, ids}
use nosana_node.Plan.{
  BuildError, duplicate_ids, ExecutionContext, collect_operations, create_operation_map,
  validate_execution_plan, add_to_group, plan_loop, create_execution_plan, open_contexts,
  push_dependent, push_dependency, link, link_all, link_operations, create_dependency_map,
}
use nosana_node.Plan.Operations.{entries}
use nosana_node.Plan.Validation.{IsWellPlaced, validate_execution_plan_iff}
use nosana_node.Plan.Links.{edges, servers_of, clients_of, dependencies_of, dependents_of}
use nosana_node.Plan.Dependencies.{create_dependency_map-edges}

abbrev operation : String → Option String → List String → Bool → Operation
operation id group needs stops = record {
  id = id;
  execution = some (record {
    group = group;
    depends_on = some needs;
    stop_if_dependent_stops = some stops;
    timeout = none;
  });
}

-- A server that stops with the work, the work, what waits for the work, and a group of its own.
abbrev pub job : List Operation
job =
    operation "server" (some "main") ("work" ∷ []) true
    ∷ operation "work" (some "main") [] false
    ∷ operation "report" (some "main") ("work" ∷ []) false
    ∷ record { id = "cleanup"; execution = none }
    ∷ []

abbrev note_host : String → List String → Result BuildError (List String)
note_host id hosts = ok (id ∷ hosts)

abbrev job_plan : List ExecutionContext
job_plan =
    record { group = "main"; ops = "server" ∷ "work" ∷ "report" ∷ [] }
    ∷ record { group = "cleanup"; ops = "cleanup" ∷ [] }
    ∷ []

abbrev job_hosts : List String
job_hosts = "cleanup" ∷ "report" ∷ "work" ∷ "server" ∷ []

job_planned : create_execution_plan note_host job [] ≡ ok (job_plan, job_hosts)
unfolding create_execution_plan plan_loop add_to_group Map.get Map.set
job_planned = refl

job_servers : dependencies_of "work" (create_dependency_map job) ≡ "server" ∷ []
unfolding create_dependency_map link_operations link_all link open_contexts push_dependency
    push_dependent Map.get Map.set Map.modify
job_servers = refl

twice_refused :
    create_operation_map (operation "a" none [] false ∷ operation "a" none [] false ∷ [])
    ≡ err (duplicate_ids ("a" ∷ []))
unfolding create_operation_map collect_operations Map.get Map.set
twice_refused = refl

validate_execution_plan_iff_example :
    (validate_execution_plan (entries job) job ≡ ok tt) ↔ All (IsWellPlaced (entries job)) job
validate_execution_plan_iff_example = validate_execution_plan_iff (entries job) job

create_dependency_map-edges_example :
    (dependencies_of "work" (create_dependency_map job) ≡ servers_of "work" (edges (ids job) job))
    × (dependents_of "work" (create_dependency_map job) ≡ clients_of "work" (edges (ids job) job))
create_dependency_map-edges_example = create_dependency_map-edges job "work"

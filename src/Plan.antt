-- ===== src/Plan.antt =====
-- NodeManager/node/task/executions: the map of operations, the checks on the plan, the plan itself
-- and the dependency map, in the order in which `TaskManager.build` calls them.
pub mod Operations
pub mod Validation
pub mod Groups
pub mod Links
pub mod Dependencies
mod Samples
use mathlib.Core.Option
use nosana_node.Base.{
  String, str_eq, Bool, true, false, not, Option, none, some, List, [], ◌∷◌, ◌++◌, if◌then◌else◌,
  is_some, contains, Result, ok, err, ◌>>=◌, or_else, map,
}
use nosana_node.Base.Map
use nosana_node.Base.Map.{Map}
use nosana_node.Operation.{Operation, declared_group, group_of, depends_on, serves, ids}

-- One line of the aggregated message of `validateExecutionPlan`.
pub data PlanError : Type 0 where
  self_dependency : String → PlanError
  missing_dependency : String → String → PlanError
  cross_group : String → Option String → String → Option String → PlanError

pub data BuildError : Type 0 where
  duplicate_ids : List String → BuildError
  plan_invalid : List PlanError → BuildError
  operation_not_found : String → BuildError

-- The loop of `createOperationMap`.
unfoldable pub collect_operations :
    List Operation → Map Operation → List String → Map Operation × List String
collect_operations [] found duplicates = (found, duplicates)
collect_operations (op ∷ ops) found duplicates =
    let seen = Map.has op.id found in
    collect_operations ops (if seen then found else Map.set op.id op found)
      (if seen then duplicates ++ (op.id ∷ []) else duplicates)

abbrev throw_duplicates : Map Operation → List String → Result BuildError (Map Operation)
throw_duplicates found [] = ok found
throw_duplicates found (d ∷ ds) = err (duplicate_ids (d ∷ ds))

unfoldable pub create_operation_map : List Operation → Result BuildError (Map Operation)
create_operation_map ops =
    let (found, duplicates) = collect_operations ops [] [] in throw_duplicates found duplicates

-- `opGroup !== depGroup`, negated
abbrev pub same_text : Option String → Option String → Bool
same_text none none = true
same_text (some a) (some b) = str_eq a b
same_text _ _ = false

-- The inner loop of `validateExecutionPlan`, over the dependencies of one operation.
unfoldable pub dependency_errors : Map Operation → Operation → List String → List PlanError
dependency_errors op_map op [] = []
dependency_errors op_map op (dep_id ∷ rest) =
    let errors = dependency_errors op_map op rest in
    elim (Map.get dep_id op_map) [
      | none ↦ missing_dependency op.id dep_id ∷ errors
      | some dep ↦
          if same_text (declared_group op) (declared_group dep)
          then errors
          else cross_group op.id (declared_group op) dep_id (declared_group dep) ∷ errors
    ]

unfoldable pub operation_errors : Map Operation → Operation → List PlanError
operation_errors op_map op =
    (if contains op.id (depends_on op) then self_dependency op.id ∷ [] else [])
    ++ dependency_errors op_map op (depends_on op)

-- The outer loop: the errors of all operations, in order.
unfoldable pub plan_errors : Map Operation → List Operation → List PlanError
plan_errors op_map [] = []
plan_errors op_map (op ∷ ops) = operation_errors op_map op ++ plan_errors op_map ops

abbrev throw_errors : List PlanError → Result BuildError (Unit {0})
throw_errors [] = ok tt
throw_errors (e ∷ es) = err (plan_invalid (e ∷ es))

unfoldable pub validate_execution_plan :
    Map Operation → List Operation → Result BuildError (Unit {0})
validate_execution_plan op_map ops = throw_errors (plan_errors op_map ops)

pub record ExecutionContext : Type 0 where
  pub group : String
  pub ops : List String

-- `if (!groups.has(group)) groups.set(group, []); groups.get(group)!.push(op.id)`
unfoldable pub add_to_group : String → String → Map (List String) → Map (List String)
add_to_group group id groups =
    let opened = if Map.has group groups then groups else Map.set group [] groups in
    Map.set group (or_else (Map.get group opened) [] ++ (id ∷ [])) opened

abbrev pub contexts : Map (List String) → List ExecutionContext
contexts groups = map (λ e. record { group = e.0; ops = e.1 }) groups

-- `executionPlan.find((ctx) => ctx.group === group)`
unfoldable pub find_group : String → List ExecutionContext → Option ExecutionContext
find_group group [] = none
find_group group (ctx ∷ plan) = if str_eq ctx.group group then some ctx else find_group group plan

-- `createExecutionPlan`. Each round also calls `this.setHost`, which may throw and which changes
-- the global store of type `S`; the component of that store gives it.
module _ {S : Type 0} (set_host : String → S → Result BuildError S) where
  unfoldable pub plan_loop :
      List Operation → S → Map (List String) → Result BuildError (Map (List String) × S)
  plan_loop [] store groups = ok (groups, store)
  plan_loop (op ∷ ops) store groups = do
    store' ← set_host op.id store
    plan_loop ops store' (add_to_group (group_of op) op.id groups)

  unfoldable pub create_execution_plan :
      List Operation → S → Result BuildError (List ExecutionContext × S)
  create_execution_plan ops store = do made ← plan_loop ops store []; ok (contexts made.0, made.1)

pub record DependencyContext : Type 0 where
  pub dependencies : List String
  pub dependents : List String

abbrev pub no_links : DependencyContext
no_links = record { dependencies = []; dependents = [] }

-- The first loop of `createDependencyMap`.
unfoldable pub open_contexts : List Operation → Map DependencyContext → Map DependencyContext
open_contexts [] links = links
open_contexts (op ∷ ops) links = open_contexts ops (Map.set op.id no_links links)

-- `map.get(id)!.dependents.push(other)`
unfoldable pub push_dependent : String → String → Map DependencyContext → Map DependencyContext
push_dependent id other links =
    Map.modify id (λ c. record c { dependents = c.dependents ++ (other ∷ []) }) links

-- `map.get(id)!.dependencies.push(other)`
unfoldable pub push_dependency : String → String → Map DependencyContext → Map DependencyContext
push_dependency id other links =
    Map.modify id (λ c. record c { dependencies = c.dependencies ++ (other ∷ []) }) links

-- The body of the inner loop of `createDependencyMap`.
unfoldable pub link : Operation → String → Map DependencyContext → Map DependencyContext
link op other links =
    if not (Map.has other links)
    then links
    else if serves op
    then push_dependency other op.id (push_dependent op.id other links)
    else push_dependent other op.id (push_dependency op.id other links)

unfoldable pub link_all : Operation → List String → Map DependencyContext → Map DependencyContext
link_all op [] links = links
link_all op (other ∷ declared) links = link_all op declared (link op other links)

unfoldable pub link_operations : List Operation → Map DependencyContext → Map DependencyContext
link_operations [] links = links
link_operations (op ∷ ops) links = link_operations ops (link_all op (depends_on op) links)

unfoldable pub create_dependency_map : List Operation → Map DependencyContext
create_dependency_map ops = link_operations ops (open_contexts ops [])

-- What `TaskManager.build` leaves in the manager.
pub record Built (S : Type 0) : Type 0 where
  pub op_map : Map Operation
  pub plan : List ExecutionContext
  pub dependency_map : Map DependencyContext
  pub store : S

unfoldable pub build :
    {S : Type 0} (set_host : String → S → Result BuildError S)
    → List Operation
    → S
    → Result BuildError (Built S)
build set_host ops store = do
  op_map ← create_operation_map ops
  checked ← validate_execution_plan op_map ops
  planned ← create_execution_plan set_host ops store
  ok (record {
    op_map = op_map;
    plan = planned.0;
    dependency_map = create_dependency_map ops;
    store = planned.1;
  })

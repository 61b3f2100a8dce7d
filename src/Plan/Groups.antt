-- ===== src/Plan/Groups.antt =====
-- How `createExecutionPlan` groups the operations.
use mathlib.Core.Option
use nosana_node.Base.{
  String, str_eq, eq_iff, ◌+◌, ◌≡◌, refl, ap, ◌∙◌, inl, inr, Option, none, some, List, [], ◌∷◌,
  ◌++◌, map, append-nil, append_assoc, arith, if◌then◌else◌, or_else, count, count-append,
  IsDistinct, Bool-cases, Option-cases, Result, ok, >>=-eq-ok,
}
use nosana_node.Base.Map
use nosana_node.Base.Map.{Map, keys-IsDistinct-set}
use nosana_node.Operation.{Operation, group_of, ids}
use nosana_node.Plan.{
  add_to_group, contexts, find_group, plan_loop, create_execution_plan, ExecutionContext,
  BuildError,
}

-- The ids of the operations of one group, in the order of the job definition.
abbrev pub members : String → List Operation → List String
members g [] = []
members g (op ∷ ops) =
    let rest = members g ops in if str_eq (group_of op) g then op.id ∷ rest else rest

-- The context of a group that has members.
abbrev pub planned : String → List String → Option ExecutionContext
planned g [] = none
planned g (id ∷ rest) = some (record { group = g; ops = id ∷ rest })

-- The ids of a plan, in its order.
abbrev pub flat_ops : List ExecutionContext → List String
flat_ops [] = []
flat_ops (ctx ∷ plan) = ctx.ops ++ flat_ops plan

abbrev pub group_names : List ExecutionContext → List String
group_names plan = map (λ ctx. ctx.group) plan

group_all : List Operation → Map (List String) → Map (List String)
group_all [] groups = groups
group_all (op ∷ ops) groups = group_all ops (add_to_group (group_of op) op.id groups)

abbrev extend : Option (List String) → List String → Option (List String)
extend none [] = none
extend none (id ∷ rest) = some (id ∷ rest)
extend (some old) new = some (old ++ new)

get-add_to_group :
    (g group id : String) (m : Map (List String))
    → Map.get g (add_to_group group id m)
      ≡ (if str_eq group g then some (or_else (Map.get group m) [] ++ (id ∷ [])) else Map.get g m)
unfolding add_to_group
get-add_to_group g group id m = elim (Option-cases (Map.get group m)) [
  | inl absent ↦ rw absent (
      ground (
        arith,
        Map.get-set_self group [] m,
        Map.get-set group g [] m,
        Map.get-set group g ([] ++ (id ∷ [])) (Map.set group [] m),
      ))
  | inr (old, there) ↦ rw there (ground (arith, Map.get-set group g (old ++ (id ∷ [])) m))
]

get-group_all :
    (g : String) (ops : List Operation) (m : Map (List String))
    → Map.get g (group_all ops m) ≡ extend (Map.get g m) (members g ops)
unfolding group_all
get-group_all g [] m = ground (arith, append-nil (or_else (Map.get g m) []))
get-group_all g (op ∷ ops) m = ground (
  arith,
  get-group_all g ops (add_to_group (group_of op) op.id m),
  get-add_to_group g (group_of op) op.id m,
  eq_iff (group_of op) g,
  append_assoc (or_else (Map.get g m) []) (op.id ∷ []) (members g ops),
)

find_group-contexts :
    (g : String) (m : Map (List String))
    → find_group g (contexts m) ≡ Option.map (λ ops. record { group = g; ops = ops }) (Map.get g m)
unfolding find_group Map.get
find_group-contexts g [] = refl
find_group-contexts g ((j, ids) ∷ m) = ground (arith, find_group-contexts g m, eq_iff j g)

group_names-contexts : (m : Map (List String)) → group_names (contexts m) ≡ Map.keys m
group_names-contexts [] = refl
group_names-contexts (e ∷ m) = ap (λ l. e.0 ∷ l) (group_names-contexts m)

IsDistinct-add_to_group :
    (group id : String) (m : Map (List String))
    → IsDistinct (Map.keys m)
    → IsDistinct (Map.keys (add_to_group group id m))
unfolding add_to_group
IsDistinct-add_to_group group id m h = elim (Bool-cases (Map.has group m)) [
  | inl old ↦ rw old (keys-IsDistinct-set group _ m h)
  | inr new ↦ rw new (keys-IsDistinct-set group _ _ (keys-IsDistinct-set group [] m h))
]

IsDistinct-group_all :
    (ops : List Operation) (m : Map (List String))
    → IsDistinct (Map.keys m)
    → IsDistinct (Map.keys (group_all ops m))
unfolding group_all
IsDistinct-group_all [] m h = h
IsDistinct-group_all (op ∷ ops) m h =
    IsDistinct-group_all ops (add_to_group (group_of op) op.id m) (IsDistinct-add_to_group _ _ m h)

abbrev flat_ids : Map (List String) → List String
flat_ids m = flat_ops (contexts m)

count-flat_set :
    (i group : String) (new : List String) (m : Map (List String))
    → count i (flat_ids (Map.set group new m)) + count i (or_else (Map.get group m) [])
      ≡ count i (flat_ids m) + count i new
unfolding Map.set Map.get
count-flat_set i group new [] = ground (arith, append-nil new)
count-flat_set i group new ((j, old) ∷ m) = ground (
  arith,
  count-flat_set i group new m,
  count-append i old (flat_ids m),
  count-append i new (flat_ids m),
  count-append i old (flat_ids (Map.set group new m)),
)

count-flat_add :
    (i group id : String) (m : Map (List String))
    → count i (flat_ids (add_to_group group id m)) ≡ count i (flat_ids m) + count i (id ∷ [])
unfolding add_to_group
count-flat_add i group id m = elim (Option-cases (Map.get group m)) [
  | inl absent ↦ rw absent (
      ground (
        arith,
        Map.get-set_self group [] m,
        count-flat_set i group [] m,
        count-flat_set i group (id ∷ []) (Map.set group [] m),
        absent,
      ))
  | inr (old, there) ↦ rw there (
      ground
        (arith, there, count-flat_set i group (old ++ (id ∷ [])) m, count-append i old (id ∷ [])))
]

count-flat_all :
    (i : String) (ops : List Operation) (m : Map (List String))
    → count i (flat_ids (group_all ops m)) ≡ count i (flat_ids m) + count i (ids ops)
unfolding group_all
count-flat_all i [] m = omega arith
count-flat_all i (op ∷ ops) m = ground (
  arith,
  count-flat_all i ops (add_to_group (group_of op) op.id m),
  count-flat_add i (group_of op) op.id m,
)

module _ {S : Type 0} (set_host : String → S → Result BuildError S) where
  plan_loop-group_all :
      (ops : List Operation) (s : S) (m : Map (List String)) {made : Map (List String) × S}
      → plan_loop set_host ops s m ≡ ok made
      → made.0 ≡ group_all ops m
  unfolding plan_loop group_all
  plan_loop-group_all [] s m h = ground arith
  plan_loop-group_all (op ∷ ops) s m h =
      let (s', hosted, rest) = >>=-eq-ok (set_host op.id s) _ h in
      plan_loop-group_all ops s' (add_to_group (group_of op) op.id m) rest

  made_plan :
      (ops : List Operation) (s : S) {made : List ExecutionContext × S}
      → create_execution_plan set_host ops s ≡ ok made
      → made.0 ≡ contexts (group_all ops [])
  unfolding create_execution_plan
  made_plan ops s {made} h =
      let (looped, e, returned) = >>=-eq-ok (plan_loop set_host ops s []) _ h in
      let grouped : looped.0 ≡ group_all ops [] = plan_loop-group_all ops s [] e in
      ground (arith, returned, grouped)

  -- A group of the plan that `createExecutionPlan` returns holds the ids of the operations of that
  -- group (an operation without a group is its own), in the order of the job definition; there is
  -- no other group, and none is planned twice.
  pub create_execution_plan-find_group :
      (ops : List Operation) (s : S) {plan : List ExecutionContext} {s' : S}
      → create_execution_plan set_host ops s ≡ ok (plan, s')
      → ((g : String) → find_group g plan ≡ planned g (members g ops))
        × IsDistinct (group_names plan)
  unfolding Map.get
  create_execution_plan-find_group ops s h = rw (made_plan ops s h) (
    (λ g. simp (find_group-contexts, get-group_all) (planned_lem g (members g ops))),
    rw group_names-contexts (IsDistinct-group_all ops [] tt),
  )
    where
      planned_lem :
          (g : String) (ids : List String)
          → Option.map (λ ops. record { group = g; ops = ops }) (extend none ids) ≡ planned g ids
      planned_lem g [] = refl
      planned_lem g (id ∷ rest) = refl

  -- The plan that `createExecutionPlan` returns names every id as often as the job definition does.
  pub count-create_execution_plan :
      (ops : List Operation) (s : S) {plan : List ExecutionContext} {s' : S}
      → create_execution_plan set_host ops s ≡ ok (plan, s')
      → (id : String) → count id (flat_ops plan) ≡ count id (ids ops)
  count-create_execution_plan ops s h id =
      rw (made_plan ops s h) (count-flat_all id ops [] ∙ omega arith)

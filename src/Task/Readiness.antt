-- ===== src/Task/Readiness.antt =====
-- What `bootstrap` of TaskManager.ts leaves.
use nosana_node.Base.{
  String, str_eq, eq_iff, eq_refl, ℕ, ◌≡◌, refl, sym, ap, ◌∙◌, inl, inr, Bool, true, ◌&&◌, some,
  List, [], ◌∷◌, arith, Bool-cases, Option-cases, Result-cases, Result, ok, contains, all,
  >>=-eq-ok, ok_inj,
}
use nosana_node.Base.Map
use nosana_node.Base.Map.{Map}
use nosana_node.Operation.{Operation, ids}
use nosana_node.Plan.{
  BuildError, Built, build, find_group, ExecutionContext, create_operation_map,
  create_execution_plan, create_dependency_map, validate_execution_plan,
}
use nosana_node.Plan.Operations.{entries, create_operation_map_cases}
use nosana_node.Plan.Groups.{members, planned, create_execution_plan-find_group}
use nosana_node.Plan.Dependencies.{HasKeys-create_dependency_map}
use nosana_node.Repository.{Flows}
use nosana_node.Task.{Manager, Progress, set_status}
use nosana_node.Task.Groups.{set_all}
use nosana_node.Task.Launching.{IsKeyed}
use nosana_node.Task.Returning.{are_known}
use nosana_node.Task.Bootstrapping.{Draft, bootstrap, init_flow, built_manager}

IsKeyed-entries : (ops : List Operation) → IsKeyed (entries ops)
unfolding Map.get
IsKeyed-entries [] id op h = cc
IsKeyed-entries (o ∷ ops) id op h = elim (Bool-cases (str_eq o.id id)) [
  | inl e ↦ ground (arith, e, h, eq_iff o.id id)
  | inr e ↦ IsKeyed-entries ops id op (ground (arith, e, h))
]

keys-entries : (ops : List Operation) → Map.keys (entries ops) ≡ ids ops
keys-entries [] = refl
keys-entries (o ∷ ops) = ap (λ ks. o.id ∷ ks) (keys-entries ops)

-- The operations that a group lists are operations of the job.
all-members :
    (p : String → Bool) (g : String) (ops : List Operation)
    → ((id : String) → contains id (ids ops) ≡ true → p id ≡ true)
    → all p (members g ops) ≡ true
all-members p g [] h = refl
all-members p g (o ∷ ops) h =
    ground (arith, h o.id, eq_refl o.id, all-members p g ops (λ id c. h id (ground (arith, c))))

set_all-keeps :
    (names : List String) (progress : Progress) (m : Manager)
    → ((set_all names progress m).op_map ≡ m.op_map)
      × ((set_all names progress m).plan ≡ m.plan)
      × ((set_all names progress m).dependency_map ≡ m.dependency_map)
      × ((set_all names progress m).promises ≡ m.promises)
set_all-keeps [] progress m = (refl, refl, refl, refl)
set_all-keeps (id ∷ names) progress m = set_all-keeps names progress (set_status id progress m)

planned-ops :
    (g : String) (names : List String) (ctx : ExecutionContext)
    → planned g names ≡ some ctx
    → ctx.ops ≡ names
planned-ops g [] ctx h = cc
planned-ops g (id ∷ names) ctx h = ground (arith, h)

-- The operations of every planned group stand in both maps.
abbrev pub ArePlanned : List ExecutionContext → (String → Bool) → Type 0
ArePlanned plan known =
    (g : String) (ctx : ExecutionContext) → find_group g plan ≡ some ctx → all known ctx.ops ≡ true

-- A manager whose operations stand under their own names, and every planned one in both maps.
abbrev pub IsReady : Manager → Type 0
IsReady m =
    IsKeyed m.op_map
    × ((g : String) (ctx : ExecutionContext)
        → find_group g m.plan ≡ some ctx
        → are_known ctx.ops m ≡ true)

built_manager-parts :
    {S : Type 0} (draft : Draft) (ops : List Operation) (built : Built S) (flows : Flows)
    → ((built_manager draft ops built flows).op_map ≡ built.op_map)
      × ((built_manager draft ops built flows).plan ≡ built.plan)
      × ((built_manager draft ops built flows).dependency_map ≡ built.dependency_map)
built_manager-parts draft ops built flows =
    let (op_map, plan, links, promises) = set_all-keeps (Map.keys built.op_map) Progress.init _ in
    (op_map, plan, links)

module _ {S : Type 0} (set_host : String → S → Result BuildError S) where
  abbrev IsSound : Built S → Type 0
  IsSound built =
      IsKeyed built.op_map
      × ArePlanned built.plan (λ id. Map.has id built.op_map && Map.has id built.dependency_map)

  made-IsSound :
      (ops : List Operation) (store : S) (plan : List ExecutionContext) (store' : S)
      → create_execution_plan set_host ops store ≡ ok (plan, store')
      → ArePlanned plan (λ id. Map.has id (entries ops) && Map.has id (create_dependency_map ops))
  made-IsSound ops store plan store' made g ctx found =
      let named : ctx.ops ≡ members g ops =
        planned-ops g (members g ops) ctx
          (sym ((create_execution_plan-find_group set_host ops store made).0 g) ∙ found) in
      rw named (
        all-members (λ id. Map.has id (entries ops) && Map.has id (create_dependency_map ops)) g ops
          (λ id c. ground (
            arith,
            c,
            Map.has-contains id (entries ops),
            ap (contains id) (keys-entries ops),
            HasKeys-create_dependency_map ops id,
          )))

  entries_of :
      (ops : List Operation) (op_map : Map Operation)
      → create_operation_map ops ≡ ok op_map
      → op_map ≡ entries ops
  entries_of ops op_map h = elim (create_operation_map_cases ops) [
    | inl (distinct, e) ↦ ok_inj (sym h ∙ e)
    | inr (ds, e, counted, some_twice) ↦ cc
  ]

  build_parts :
      (ops : List Operation) (store : S) (built : Built S)
      → build set_host ops store ≡ ok built
      → (built.op_map ≡ entries ops)
        × (built.dependency_map ≡ create_dependency_map ops)
        × (create_execution_plan set_host ops store ≡ ok (built.plan, built.store))
  unfolding build
  build_parts ops store built h =
      let (op_map, mapped, rest) = >>=-eq-ok (create_operation_map ops) _ h in
      let (checked, valid, rest') = >>=-eq-ok (validate_execution_plan op_map ops) _ rest in
      let (made, e, last) = >>=-eq-ok (create_execution_plan set_host ops store) _ rest' in
      let same = ok_inj last in
      (
        sym (ap (λ b. b.op_map) same) ∙ entries_of ops op_map mapped,
        sym (ap (λ b. b.dependency_map) same),
        e ∙ ap (λ b. ok (b.plan, b.store)) same,
      )

  build-IsSound :
      (ops : List Operation) (store : S) (built : Built S)
      → build set_host ops store ≡ ok built
      → IsSound built
  build-IsSound ops store built h =
      let (mapped, linked, made) = build_parts ops store built h in
      rw (mapped, linked) (IsKeyed-entries ops, made-IsSound ops store built.plan built.store made)

  module _ (set_defaults : S → S) where
    -- A manager that bootstraps knows every operation that its plan lists.
    pub bootstrap-IsReady :
        (draft : Draft) (now : ℕ) (store store' : S) (flows : Flows) (m : Manager)
        → bootstrap set_host set_defaults draft now store flows ≡ ok (m, store')
        → IsReady m
    unfolding bootstrap init_flow
    bootstrap-IsReady draft now store store' flows m h = elim (Option-cases draft.definition) [
      | inl d ↦ absurd (ground (arith, d, h))
      | inr (ops, d) ↦ elim (Result-cases (build set_host ops store)) [
        | inl (e, b) ↦ absurd (ground (arith, d, b, h))
        | inr (built, b) ↦
            let begun = init_flow set_host set_defaults draft ops now built.store flows in
            let (op_map, plan, links) = built_manager-parts draft ops built begun.0 in
            let booted : bootstrap set_host set_defaults draft now store flows
                ≡ ok (built_manager draft ops built begun.0, begun.1) =
              rw (bootstrap, d, b) refl in
            let same : m ≡ built_manager draft ops built begun.0 =
              ap (λ p. p.0) (ok_inj (sym h ∙ booted)) in
            rw (same, op_map, plan, links) (build-IsSound ops store built b)
      ]
    ]

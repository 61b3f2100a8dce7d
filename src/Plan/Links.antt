-- ===== src/Plan/Links.antt =====
-- The edges that `createDependencyMap` is to make, and what one of its rounds, `link`, adds.
use nosana_node.Base.{
  String, str_eq, eq_iff, ◌≡◌, true, none, some, List, [], ◌∷◌, ◌++◌, append-nil, arith,
  if◌then◌else◌, contains,
}
use nosana_node.Base.Map
use nosana_node.Base.Map.{Map}
use nosana_node.Operation.{Operation, depends_on, serves}
use nosana_node.Plan.{DependencyContext, push_dependent, push_dependency, link}

-- `client` waits for `server`.
pub record Edge : Type 0 where
  pub server : String
  pub client : String

-- A name on `depends_on` is one the operation serves, if it stops with its dependents, and one it
-- waits for otherwise.
abbrev pub edge : Operation → String → Edge
edge op other =
    if serves op
    then record { server = op.id; client = other }
    else record { server = other; client = op.id }

-- The edges that one operation declares; a name that is no operation of the job makes none.
abbrev pub edges_of : List String → Operation → List String → List Edge
edges_of known op [] = []
edges_of known op (other ∷ declared) =
    let rest = edges_of known op declared in
    if contains other known then edge op other ∷ rest else rest

abbrev pub edges : List String → List Operation → List Edge
edges known [] = []
edges known (op ∷ ops) = edges_of known op (depends_on op) ++ edges known ops

abbrev pub clients_of : String → List Edge → List String
clients_of server [] = []
clients_of server (e ∷ es) =
    let rest = clients_of server es in if str_eq e.server server then e.client ∷ rest else rest

abbrev pub servers_of : String → List Edge → List String
servers_of client [] = []
servers_of client (e ∷ es) =
    let rest = servers_of client es in if str_eq e.client client then e.server ∷ rest else rest

abbrev pub dependents_of : String → Map DependencyContext → List String
dependents_of id links = elim (Map.get id links) [ none ↦ [] | some c ↦ c.dependents ]

abbrev pub dependencies_of : String → Map DependencyContext → List String
dependencies_of id links = elim (Map.get id links) [ none ↦ [] | some c ↦ c.dependencies ]

module _ (j k x : String) (m : Map DependencyContext) where
  has-push_dependent : Map.has j (push_dependent k x m) ≡ Map.has j m
  unfolding push_dependent
  has-push_dependent = Map.has-modify k j _ m

  has-push_dependency : Map.has j (push_dependency k x m) ≡ Map.has j m
  unfolding push_dependency
  has-push_dependency = Map.has-modify k j _ m

  dependents_of-push_dependent :
      Map.has k m ≡ true
      → dependents_of j (push_dependent k x m)
        ≡ dependents_of j m ++ (if str_eq k j then x ∷ [] else [])
  unfolding push_dependent
  dependents_of-push_dependent h = ground (
    arith,
    eq_iff k j,
    append-nil (dependents_of j m),
    Map.get-modify k j (λ c. record c { dependents = c.dependents ++ (x ∷ []) }) m,
  )

  dependents_of-push_dependency : dependents_of j (push_dependency k x m) ≡ dependents_of j m
  unfolding push_dependency
  dependents_of-push_dependency =
      ground
        (arith, Map.get-modify k j (λ c. record c { dependencies = c.dependencies ++ (x ∷ []) }) m)

  dependencies_of-push_dependency :
      Map.has k m ≡ true
      → dependencies_of j (push_dependency k x m)
        ≡ dependencies_of j m ++ (if str_eq k j then x ∷ [] else [])
  unfolding push_dependency
  dependencies_of-push_dependency h = ground (
    arith,
    eq_iff k j,
    append-nil (dependencies_of j m),
    Map.get-modify k j (λ c. record c { dependencies = c.dependencies ++ (x ∷ []) }) m,
  )

  dependencies_of-push_dependent : dependencies_of j (push_dependent k x m) ≡ dependencies_of j m
  unfolding push_dependent
  dependencies_of-push_dependent =
      ground (arith, Map.get-modify k j (λ c. record c { dependents = c.dependents ++ (x ∷ []) }) m)

ruleset pushes = (
  has-push_dependent, has-push_dependency, dependents_of-push_dependent,
  dependents_of-push_dependency, dependencies_of-push_dependency, dependencies_of-push_dependent,
)

abbrev pub HasKeys : List String → Map DependencyContext → Type 0
HasKeys known m = (k : String) → Map.has k m ≡ contains k known

-- The edge, if the other name is known.
abbrev pub edge? : List String → Operation → String → List Edge
edge? known op other = if contains other known then edge op other ∷ [] else []

module _ (known : List String) (op : Operation) (op_known : contains op.id known ≡ true) where
  pub HasKeys-link :
      (other : String) (m : Map DependencyContext)
      → HasKeys known m
      → HasKeys known (link op other m)
  unfolding link
  HasKeys-link other m h k = ground (
    arith,
    h k,
    has-push_dependent k op.id other m,
    has-push_dependency k op.id other m,
    has-push_dependency k other op.id (push_dependent op.id other m),
    has-push_dependent k other op.id (push_dependency op.id other m),
  )

  pub dependents_of-link :
      (j other : String) (m : Map DependencyContext)
      → HasKeys known m
      → dependents_of j (link op other m) ≡ dependents_of j m ++ clients_of j (edge? known op other)
  unfolding link
  dependents_of-link j other m h = ground (
    arith,
    h other,
    h op.id,
    append-nil (dependents_of j m),
    dependents_of-push_dependency j other op.id (push_dependent op.id other m),
    dependents_of-push_dependent j op.id other m,
    dependents_of-push_dependent j other op.id (push_dependency op.id other m),
    has-push_dependency other op.id other m,
    dependents_of-push_dependency j op.id other m,
  )

  pub dependencies_of-link :
      (j other : String) (m : Map DependencyContext)
      → HasKeys known m
      → dependencies_of j (link op other m)
        ≡ dependencies_of j m ++ servers_of j (edge? known op other)
  unfolding link
  dependencies_of-link j other m h = ground (
    arith,
    h other,
    h op.id,
    append-nil (dependencies_of j m),
    dependencies_of-push_dependent j other op.id (push_dependency op.id other m),
    dependencies_of-push_dependency j op.id other m,
    dependencies_of-push_dependency j other op.id (push_dependent op.id other m),
    has-push_dependent other op.id other m,
    dependencies_of-push_dependent j op.id other m,
  )

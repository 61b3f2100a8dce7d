-- ===== src/Plan/Dependencies.antt =====
-- `createDependencyMap` is the adjacency of the declared edges.
use nosana_node.Base.{
  String, eq_refl, ◌≡◌, refl, sym, ap, ◌∙◌, true, ◌||◌, List, [], ◌∷◌, ◌++◌, append-nil,
  append_assoc, arith, contains, count, All, all,
}
use nosana_node.Base.Map
use nosana_node.Base.Map.{Map}
use nosana_node.Operation.{Operation, depends_on, ids}
use nosana_node.Plan.{
  DependencyContext, no_links, open_contexts, link, link_all, link_operations,
  create_dependency_map,
}
use nosana_node.Plan.Links.{
  Edge, edges_of, edges, clients_of, servers_of, dependents_of, dependencies_of, HasKeys, edge?,
  HasKeys-link, dependents_of-link, dependencies_of-link,
}

clients_of-append :
    (j : String) (a b : List Edge) → clients_of j (a ++ b) ≡ clients_of j a ++ clients_of j b
clients_of-append j [] b = refl
clients_of-append j (e ∷ a) b = ground (arith, clients_of-append j a b)

servers_of-append :
    (j : String) (a b : List Edge) → servers_of j (a ++ b) ≡ servers_of j a ++ servers_of j b
servers_of-append j [] b = refl
servers_of-append j (e ∷ a) b = ground (arith, servers_of-append j a b)

-- A map that holds some edges, read from both ends.
record Links (known : List String) (es : List Edge) (m : Map DependencyContext) : Type 0 where
  has_keys : HasKeys known m
  clients : (j : String) → dependents_of j m ≡ clients_of j es
  servers : (j : String) → dependencies_of j m ≡ servers_of j es

Links-link :
    (known : List String) (op : Operation) (other : String) (es : List Edge)
    (m : Map DependencyContext)
    → contains op.id known ≡ true
    → Links known es m
    → Links known (es ++ edge? known op other) (link op other m)
Links-link known op other es m k l = record {
  has_keys = HasKeys-link known op k other m l.has_keys;
  clients = λ j.
      dependents_of-link known op k j other m l.has_keys
      ∙ ap (λ c. c ++ clients_of j (edge? known op other)) (l.clients j)
      ∙ sym (clients_of-append j es _);
  servers = λ j.
      dependencies_of-link known op k j other m l.has_keys
      ∙ ap (λ c. c ++ servers_of j (edge? known op other)) (l.servers j)
      ∙ sym (servers_of-append j es _);
}

edges_of-cons :
    (known : List String) (op : Operation) (other : String) (declared : List String)
    → edge? known op other ++ edges_of known op declared ≡ edges_of known op (other ∷ declared)
edges_of-cons known op other declared = ground arith

Links-link_all :
    (known : List String) (op : Operation) (declared : List String) (es : List Edge)
    (m : Map DependencyContext)
    → contains op.id known ≡ true
    → Links known es m
    → Links known (es ++ edges_of known op declared) (link_all op declared m)
unfolding link_all
Links-link_all known op [] es m k l = rw append-nil l
Links-link_all known op (other ∷ declared) es m k l =
    rw (← edges_of-cons known op other declared, ← append_assoc)
      (Links-link_all known op declared (es ++ edge? known op other) (link op other m) k
        (Links-link known op other es m k l))

Links-link_operations :
    (known : List String) (ops : List Operation) (es : List Edge) (m : Map DependencyContext)
    → All (λ op. contains op.id known ≡ true) ops
    → Links known es m
    → Links known (es ++ edges known ops) (link_operations ops m)
unfolding link_operations
Links-link_operations known [] es m k l = rw append-nil l
Links-link_operations known (op ∷ ops) es m (k, ks) l = rw (← append_assoc) (
    Links-link_operations known ops (es ++ edges_of known op (depends_on op))
      (link_all op (depends_on op) m) ks (Links-link_all known op (depends_on op) es m k l))

-- The first loop opens an empty context for every id.
module _ (j : String) where
  has-open_contexts :
      (ops : List Operation) (m : Map DependencyContext)
      → Map.has j (open_contexts ops m) ≡ (contains j (ids ops) || Map.has j m)
  unfolding open_contexts
  has-open_contexts [] m = refl
  has-open_contexts (op ∷ ops) m =
      ground
        (arith, has-open_contexts ops (Map.set op.id no_links m), Map.get-set op.id j no_links m)

  dependents_of-open_contexts :
      (ops : List Operation) (m : Map DependencyContext)
      → dependents_of j m ≡ []
      → dependents_of j (open_contexts ops m) ≡ []
  unfolding open_contexts
  dependents_of-open_contexts [] m h = h
  dependents_of-open_contexts (op ∷ ops) m h =
      dependents_of-open_contexts ops (Map.set op.id no_links m)
        (ground (arith, Map.get-set op.id j no_links m))

  dependencies_of-open_contexts :
      (ops : List Operation) (m : Map DependencyContext)
      → dependencies_of j m ≡ []
      → dependencies_of j (open_contexts ops m) ≡ []
  unfolding open_contexts
  dependencies_of-open_contexts [] m h = h
  dependencies_of-open_contexts (op ∷ ops) m h =
      dependencies_of-open_contexts ops (Map.set op.id no_links m)
        (ground (arith, Map.get-set op.id j no_links m))

contains-ids :
    (all ops : List Operation)
    → ((k : String) → contains k (ids ops) ≡ true → contains k (ids all) ≡ true)
    → All (λ op. contains op.id (ids all) ≡ true) ops
contains-ids all [] h = tt
contains-ids all (op ∷ ops) h =
    (h op.id (ground (arith, eq_refl op.id)), contains-ids all ops (λ k c. h k (ground arith)))

Links-create :
    (ops : List Operation) → Links (ids ops) (edges (ids ops) ops) (create_dependency_map ops)
unfolding create_dependency_map Map.get
Links-create ops =
    Links-link_operations (ids ops) ops [] (open_contexts ops []) (contains-ids ops ops (λ k c. c))
      (record {
        has_keys = λ k. ground (arith, has-open_contexts k ops []);
        clients = λ j. dependents_of-open_contexts j ops [] refl;
        servers = λ j. dependencies_of-open_contexts j ops [] refl;
      })

-- The map of `createDependencyMap` has a context for each operation, and no other.
pub HasKeys-create_dependency_map :
    (ops : List Operation) → HasKeys (ids ops) (create_dependency_map ops)
HasKeys-create_dependency_map ops = (Links-create ops).has_keys

-- The map of `createDependencyMap` lists for each operation, in the order of declaration, the
-- servers it waits for as its dependencies and the clients that wait for it as its dependents,
-- where `stop_if_dependent_stops` turns the direction of the declared names and unknown names count
-- for nothing.
pub create_dependency_map-edges :
    (ops : List Operation) (id : String)
    → (dependencies_of id (create_dependency_map ops) ≡ servers_of id (edges (ids ops) ops))
      × (dependents_of id (create_dependency_map ops) ≡ clients_of id (edges (ids ops) ops))
create_dependency_map-edges ops id = ((Links-create ops).servers id, (Links-create ops).clients id)

count-clients_of :
    (s c : String) (es : List Edge) → count c (clients_of s es) ≡ count s (servers_of c es)
count-clients_of s c [] = refl
count-clients_of s c (e ∷ es) = ground (arith, count-clients_of s c es)

-- In the map of `createDependencyMap` one operation is among the dependents of another as often as
-- that other is among its dependencies.
pub create_dependency_map_symmetric :
    (ops : List Operation) (s c : String)
    → count c (dependents_of s (create_dependency_map ops))
      ≡ count s (dependencies_of c (create_dependency_map ops))
create_dependency_map_symmetric ops s c =
    rw ((Links-create ops).clients s, (Links-create ops).servers c)
      (count-clients_of s c (edges (ids ops) ops))

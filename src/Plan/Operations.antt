-- ===== src/Plan/Operations.antt =====
-- What `createOperationMap` returns, and which duplicates it reports.
use nosana_node.Base.{
  String, eq_iff, eq_refl, ◌+◌, ◌-◌, ◌≤◌, ◌≡◌, refl, ap, ◌∙◌, ◌≢◌, ◌⊎◌, inl, inr, false, List, [],
  ◌∷◌, ◌++◌, map, append-nil, append_assoc, map-append, arith, if◌then◌else◌, contains, count,
  count-append, contains-append, IsDistinct, ok, err,
}
use nosana_node.Base.Map
use nosana_node.Base.Map.{Map}
use nosana_node.Operation.{Operation, ids}
use nosana_node.Plan.{collect_operations, create_operation_map, duplicate_ids}

-- Every operation under its id, in the order of the job definition.
abbrev pub entries : List Operation → Map Operation
entries ops = map (λ op. (op.id, op)) ops

keys-append {ℓ} : {V : Type ℓ} (m n : Map V) → Map.keys (m ++ n) ≡ Map.keys m ++ Map.keys n
keys-append m n = map-append (λ e. e.0) m n

keys-set_new {ℓ} :
    {V : Type ℓ} (k : String) (v : V) (m : Map V)
    → Map.has k m ≡ false
    → Map.keys (Map.set k v m) ≡ Map.keys m ++ (k ∷ [])
keys-set_new k v m h = rw (Map.keys-set k v m, h)

distinct_middle :
    (xs : List String) (k : String) (ys : List String)
    → IsDistinct (xs ++ (k ∷ ys))
    → contains k xs ≡ false
distinct_middle [] k ys h = refl
distinct_middle (x ∷ xs) k ys h =
    ground
      (arith, distinct_middle xs k ys h.1, contains-append x xs (k ∷ ys), eq_iff x k, eq_iff k x)

collect-distinct :
    (ops : List Operation) (found : Map Operation) (duplicates : List String)
    → IsDistinct (Map.keys found ++ ids ops)
    → collect_operations ops found duplicates ≡ (found ++ entries ops, duplicates)
unfolding collect_operations
collect-distinct [] found duplicates h = rw append-nil
collect-distinct (op ∷ ops) found duplicates h =
    let new : Map.has op.id found ≡ false =
      Map.has-contains op.id found ∙ distinct_middle (Map.keys found) op.id (ids ops) h in
    rw new (
      collect-distinct ops (Map.set op.id op found) duplicates
        (rw (keys-set_new op.id op found new, append_assoc) h)
      ∙ rw (Map.set-eq-append op.id op found new, append_assoc))

-- How often each id is reported.
count-collect :
    (d : String) (ops : List Operation) (found : Map Operation) (duplicates : List String)
    → count d (collect_operations ops found duplicates).1
      ≡ count d duplicates + (if Map.has d found then count d (ids ops) else count d (ids ops) - 1)
unfolding collect_operations
count-collect d [] found duplicates = ground arith
count-collect d (op ∷ ops) found duplicates = ground (
  arith,
  count-collect d ops (if Map.has op.id found then found else Map.set op.id op found)
      (if Map.has op.id found then duplicates ++ (op.id ∷ []) else duplicates),
  count-append d duplicates (op.id ∷ []),
  Map.get-set op.id d op found,
  eq_iff op.id d,
)

contains-eq_of_count : (k : String) (xs : List String) → count k xs ≡ 0 → contains k xs ≡ false
contains-eq_of_count k [] h = refl
contains-eq_of_count k (x ∷ xs) h = ground (arith, contains-eq_of_count k xs)

IsDistinct-of_count : (xs : List String) → ((k : String) → count k xs ≤ 1) → IsDistinct xs
IsDistinct-of_count [] h = tt
IsDistinct-of_count (x ∷ xs) h = (
  contains-eq_of_count x xs (ground (arith, h x, eq_refl x)),
  IsDistinct-of_count xs (λ k. ground (arith, h k)),
)

-- `createOperationMap` returns a map exactly when no id occurs twice, and the map then holds every
-- operation under its id, in order; otherwise it throws an error that names each id once less
-- often than the id occurs.
pub create_operation_map_cases :
    (ops : List Operation)
    → (IsDistinct (ids ops) × (create_operation_map ops ≡ ok (entries ops)))
      ⊎ ((ds : List String) × (create_operation_map ops ≡ err (duplicate_ids ds))
          × ((d : String) → count d ds ≡ count d (ids ops) - 1)
          × (ds ≢ []))
unfolding create_operation_map Map.get
create_operation_map_cases ops = by_duplicates (collect_operations ops [] []).1 refl
  where
    by_duplicates :
        (ds : List String)
        → (collect_operations ops [] []).1 ≡ ds
        → (IsDistinct (ids ops) × (create_operation_map ops ≡ ok (entries ops)))
          ⊎ ((ds : List String) × (create_operation_map ops ≡ err (duplicate_ids ds))
              × ((d : String) → count d ds ≡ count d (ids ops) - 1)
              × (ds ≢ []))
    by_duplicates [] e =
        let distinct : IsDistinct (ids ops) =
          IsDistinct-of_count (ids ops)
            (λ k. ground (arith, count-collect k ops [] [], ap (count k) e)) in
        inl (distinct, rw (collect-distinct ops [] [] distinct))
    by_duplicates (d ∷ ds) e =
        inr (
          d ∷ ds,
          ground arith,
          (λ k. ground (arith, ap (count k) e, count-collect k ops [] [])),
          cc,
        )

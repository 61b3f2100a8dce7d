-- ===== src/Task/Launching.antt =====
-- What the run of an operation changes of the manager, and the run that follows a restart.
-- About operations/runTaskManagerOperation.ts, `setUpOperationFunc` of TaskManager.ts and
-- operations/restartTaskManagerOperation.ts.
use nosana_node.Base.{
  String, str_eq, ℕ, ◌≡◌, refl, inl, inr, true, false, ◌||◌, Option, some, List, [], arith,
  contains, contains-add_member, Option-cases, ok,
}
use nosana_node.Base.Map
use nosana_node.Base.Map.{Map}
use nosana_node.Operation.{Operation, find_index}
use nosana_node.Task.{Progress, Manager}
use nosana_node.Task.Runs.{run_operation, set_up_operation, release, on_ready}
use nosana_node.Task.Groups.{is_over, is_pending, finish_restart}

-- The operations stand in the map under their own names.
abbrev pub IsKeyed : Map Operation → Type 0
IsKeyed ops = (id : String) (op : Operation) → Map.get id ops ≡ some op → op.id ≡ id

module _ (prepare : Operation → Option String) where
  run_operation-promises :
      (now : ℕ) (op : Operation) (dependent : List String) (m : Manager)
      → (run_operation prepare now op dependent m).promises ≡ m.promises
  unfolding run_operation
  run_operation-promises now op dependent m = ground arith

  run_operation-dependency_map :
      (now : ℕ) (op : Operation) (dependent : List String) (m : Manager)
      → (run_operation prepare now op dependent m).dependency_map ≡ m.dependency_map
  unfolding run_operation
  run_operation-dependency_map now op dependent m = ground arith

  run_operation-op_map :
      (now : ℕ) (op : Operation) (dependent : List String) (m : Manager)
      → (run_operation prepare now op dependent m).op_map ≡ m.op_map
  unfolding run_operation
  run_operation-op_map now op dependent m = ground arith

  run_operation-statuses :
      (now : ℕ) (op : Operation) (dependent : List String) (m : Manager) (j : String)
      → str_eq op.id j ≡ false
      → Map.get j (run_operation prepare now op dependent m).statuses ≡ Map.get j m.statuses
  unfolding run_operation
  run_operation-statuses now op dependent m j n =
      ground (arith, Map.get-set op.id j Progress.stopping m.statuses)

  run_operation-not_pending :
      (now : ℕ) (op : Operation) (dependent : List String) (m : Manager)
      → is_pending (Map.get op.id m.statuses) ≡ false
      → is_over (Map.get op.id m.statuses) ≡ false
      → (is_pending (Map.get op.id (run_operation prepare now op dependent m).statuses) ≡ false)
        × (is_over (Map.get op.id (run_operation prepare now op dependent m).statuses) ≡ false)
  unfolding run_operation
  run_operation-not_pending now op dependent m p o =
      ground (arith, Map.get-set_self op.id Progress.stopping m.statuses)

  -- What setting up an operation leaves as it is, and that it is waited for.
  pub set_up_operation-frame :
      (now : ℕ) (id : String) (dependent : List String) (m next : Manager)
      → IsKeyed m.op_map
      → set_up_operation prepare now id dependent m ≡ ok next
      → (next.op_map ≡ m.op_map)
        × (next.dependency_map ≡ m.dependency_map)
        × ((j : String) → contains j next.promises ≡ (str_eq id j || contains j m.promises))
        × ((j : String) → str_eq id j ≡ false → Map.get j next.statuses ≡ Map.get j m.statuses)
        × (is_pending (Map.get id m.statuses) ≡ false
            → is_over (Map.get id m.statuses) ≡ false
            → (is_pending (Map.get id next.statuses) ≡ false)
              × (is_over (Map.get id next.statuses) ≡ false))
  unfolding set_up_operation
  set_up_operation-frame now id dependent m next keyed h =
      elim (Option-cases (Map.get id m.op_map)) [
        | inl gone ↦ absurd (ground arith)
        | inr (op, there) ↦
            let same = keyed id op there in
            (
              ground (arith, run_operation-op_map now op dependent m),
              ground (arith, run_operation-dependency_map now op dependent m),
              (λ j. ground (
                arith,
                run_operation-promises now op dependent m,
                contains-add_member j id m.promises,
              )),
              (λ j n. ground (arith, run_operation-statuses now op dependent m j)),
              (λ p o. ground (arith, run_operation-not_pending now op dependent m)),
            )
      ]

  run_operation-released_by :
      (now : ℕ) (op : Operation) (dependent : List String) (i : ℕ) (m : Manager)
      → find_index op.id m.operations ≡ some i
      → Map.get op.id (run_operation prepare now op dependent m).released_by ≡ some dependent
  unfolding run_operation
  run_operation-released_by now op dependent i m h =
      ground (arith, Map.get-set_self op.id dependent m.released_by)

  finish_restart-released_by :
      (now : ℕ) (id : String) (i : ℕ) (m : Manager)
      → IsKeyed m.op_map
      → Map.has id m.op_map ≡ true
      → find_index id m.operations ≡ some i
      → Map.get id (finish_restart prepare now id m).released_by ≡ some []
  unfolding finish_restart set_up_operation
  finish_restart-released_by now id i m keyed h f = elim (Option-cases (Map.get id m.op_map)) [
    | inl gone ↦ absurd (ground arith)
    | inr (op, there) ↦
        let same = keyed id op there in ground (arith, run_operation-released_by now op [] i m)
  ]

  -- An operation of the job that has been restarted releases no operation once it is up: those
  -- that waited for its first run to start up are not started by the second. The operations stand
  -- in the manager's map under their own names.
  pub finish_restart-releases_none :
      (now later : ℕ) (id : String) (i : ℕ) (m : Manager)
      → IsKeyed m.op_map
      → Map.has id m.op_map ≡ true
      → find_index id m.operations ≡ some i
      → on_ready prepare later id (finish_restart prepare now id m)
        ≡ ok (finish_restart prepare now id m)
  unfolding on_ready release
  finish_restart-releases_none now later id i m keyed h f =
      rw (finish_restart-released_by now id i m keyed h f) refl

-- ===== src/Task/Launches.antt =====
-- Which operations a run gives to the provider; the children have the loops that make runs. About `start` of TaskManager.ts and
-- operations/runTaskManagerOperation.ts.
pub mod Scheduling
pub mod Releasing
use nosana_node.Base.{
  String, str_eq, eq_iff, eq_refl, ℕ, ◌≡◌, sym, ap, ◌∙◌, inl, inr, Bool, true, false, not, ◌&&◌,
  ◌||◌, Option, some, List, [], ◌∷◌, arith, is_some, some_inj, contains, Bool-cases, Option-cases,
  ok, >>=-eq-ok,
}
use nosana_node.Base.Map
use nosana_node.Base.Map.{Map}
use nosana_node.Operation.{Operation, find_index}
use nosana_node.Plan.{DependencyContext}
use nosana_node.Task.{starting, Manager, set_status}
use nosana_node.Task.Runs.{run_operation, set_up_operation, release, is_unstarted}
use nosana_node.Task.Groups.{schedule_operation, schedule, is_pending}
use nosana_node.Task.Launching.{IsKeyed}
use nosana_node.Task.Scheduling.{
  are_over, Scheduled, schedule_operation_cases, schedule_operation-Framed, are_over-Framed,
  unmoved, schedule_head, schedule-starts,
}
use nosana_node.Task.Releasing.{release_one, release_one-frame, release-starts}

module _ (prepare : Operation → Option String) where
  -- Whether a run gives an operation to the provider: the flow is not stopped, and the arguments
  -- resolve.
  abbrev pub launches : Manager → Operation → Bool
  launches m op = not (is_some m.main_abort) && not (is_some (prepare op))

  -- What a run leaves as it is.
  abbrev pub Spares : String → Manager → Manager → Type 0
  Spares id m next =
      (next.op_map ≡ m.op_map)
      × (next.operations ≡ m.operations)
      × (next.main_abort ≡ m.main_abort)
      × ((j : String) → str_eq id j ≡ false → contains j next.launched ≡ contains j m.launched)

  run_operation-Spares :
      (now : ℕ) (op : Operation) (dependent : List String) (m : Manager)
      → Spares op.id m (run_operation prepare now op dependent m)
  unfolding run_operation
  run_operation-Spares now op dependent m =
      (ground arith, ground arith, ground arith, λ j n. ground (arith, n))

  run_operation-launched :
      (now i : ℕ) (op : Operation) (dependent : List String) (m : Manager)
      → find_index op.id m.operations ≡ some i
      → contains op.id (run_operation prepare now op dependent m).launched
        ≡ (launches m op || contains op.id m.launched)
  unfolding run_operation
  run_operation-launched now i op dependent m listed = ground (arith, listed, eq_refl op.id)

  pub set_up_operation-Spares :
      (now : ℕ) (id : String) (dependent : List String) (m next : Manager)
      → IsKeyed m.op_map
      → set_up_operation prepare now id dependent m ≡ ok next
      → Spares id m next
  unfolding set_up_operation
  set_up_operation-Spares now id dependent m next keyed h =
      elim (Option-cases (Map.get id m.op_map)) [
        | inl gone ↦ absurd (ground arith)
        | inr (op, there) ↦
            let same = keyed id op there in
            let spares = run_operation-Spares now op dependent m in
            (
              ground (arith, spares.0),
              ground (arith, spares.1),
              ground (arith, spares.2),
              λ j n. ground (arith, spares.3 j),
            )
      ]

  pub set_up_operation-launched :
      (now i : ℕ) (id : String) (op : Operation) (dependent : List String) (m next : Manager)
      → IsKeyed m.op_map
      → Map.get id m.op_map ≡ some op
      → find_index id m.operations ≡ some i
      → set_up_operation prepare now id dependent m ≡ ok next
      → contains id next.launched ≡ (launches m op || contains id m.launched)
  unfolding set_up_operation
  set_up_operation-launched now i id op dependent m next keyed there listed h =
      let same = keyed id op there in
      ground (arith, same, there, h, run_operation-launched now i op dependent m)

-- ===== src/Task/Returning.antt =====
-- The scheduling of a group does not throw. About the loop of `start` in TaskManager.ts over the
-- operations of a group.
use nosana_node.Base.{
  String, ℕ, ◌≡◌, refl, inl, inr, Bool, true, ◌&&◌, Option, List, [], ◌∷◌, arith, Bool-cases,
  Option-cases, Result, ok, all, add_member,
}
use nosana_node.Base.Map
use nosana_node.Operation.{Operation}
use nosana_node.Task.{Manager, ControlError, set_status, starting, waiting}
use nosana_node.Task.Launching.{IsKeyed}
use nosana_node.Task.Runs.{set_up_operation, run_operation}
use nosana_node.Task.Groups.{schedule_operation, schedule, is_pending}
use nosana_node.Task.Scheduling.{are_over, schedule_operation_cases, schedule_operation-Framed}

-- Whether the operations stand in both maps of the manager, as `build` leaves them.
abbrev pub are_known : List String → Manager → Bool
are_known ids m = all (λ id. Map.has id m.op_map && Map.has id m.dependency_map) ids

abbrev Returns : Result ControlError Manager → Type 0
Returns result = (next : Manager) × (result ≡ ok next)

module _ (prepare : Operation → Option String) where
  set_up_operation-Returns :
      (now : ℕ) (id : String) (dependent : List String) (m : Manager)
      → Map.has id m.op_map ≡ true
      → Returns (set_up_operation prepare now id dependent m)
  unfolding set_up_operation
  set_up_operation-Returns now id dependent m h = elim (Option-cases (Map.get id m.op_map)) [
    | inl gone ↦ absurd (ground arith)
    | inr (op, there) ↦
        let ran = run_operation prepare now op dependent m in
        (record ran { promises = add_member id ran.promises }, rw (there, set_up_operation) refl)
  ]

  schedule_operation-Returns :
      (now : ℕ) (id : String) (m : Manager)
      → Map.has id m.op_map ≡ true
      → Map.has id m.dependency_map ≡ true
      → Returns (schedule_operation prepare now id m)
  unfolding schedule_operation
  schedule_operation-Returns now id m h d = elim (Bool-cases (is_pending (Map.get id m.statuses))) [
    | inr still ↦ (m, rw (still, schedule_operation) refl)
    | inl pends ↦ elim (Option-cases (Map.get id m.dependency_map)) [
      | inl gone ↦ absurd (ground arith)
      | inr (ctx, there) ↦ elim (Bool-cases (are_over prepare ctx.dependencies m)) [
        | inl over ↦
            let did = set_up_operation-Returns now id ctx.dependents (set_status id starting m) h in
            (did.0, rw (pends, there, over, schedule_operation) did.1)
        | inr not_over ↦
            (set_status id waiting m, rw (pends, there, not_over, schedule_operation) refl)
      ]
    ]
  ]

  -- The scheduling of operations that stand in both maps of the manager, under their own names,
  -- returns.
  pub schedule-Returns :
      (now : ℕ) (ids : List String) (m : Manager)
      → IsKeyed m.op_map
      → are_known ids m ≡ true
      → (next : Manager) × (schedule prepare now ids m ≡ ok next)
  unfolding schedule
  schedule-Returns now [] m keyed h = (m, refl)
  schedule-Returns now (id ∷ ids) m keyed h =
      let (mid, first) = schedule_operation-Returns now id m (ground arith) (ground arith) in
      let did = schedule_operation_cases prepare now id m mid first in
      let framed = schedule_operation-Framed prepare now id m mid keyed did in
      let (next, later) =
        schedule-Returns now ids mid (rw (framed.0) keyed)
          (rw (framed.0, framed.1) (ground arith)) in
      (next, rw (first, later) refl)

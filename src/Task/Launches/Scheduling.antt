-- ===== src/Task/Launches/Scheduling.antt =====
-- Which operations of a group are given to the provider: the loop of `start` of TaskManager.ts over
-- the operations of a group.
use nosana_node.Base.{
  String, str_eq, eq_iff, ℕ, ◌≡◌, sym, ap, ◌∙◌, inl, inr, true, false, ◌||◌, Option, some, List, [],
  ◌∷◌, arith, some_inj, contains, Bool-cases, ok, >>=-eq-ok,
}
use nosana_node.Base.Map
use nosana_node.Base.Map.{Map}
use nosana_node.Operation.{Operation, find_index}
use nosana_node.Plan.{DependencyContext}
use nosana_node.Task.{starting, Manager, set_status}
use nosana_node.Task.Groups.{schedule_operation, schedule, is_pending}
use nosana_node.Task.Launching.{IsKeyed}
use nosana_node.Task.Scheduling.{
  are_over, Scheduled, schedule_operation_cases, schedule_operation-Framed, are_over-Framed,
  unmoved, schedule_head, schedule-starts,
}
use nosana_node.Task.Launches.{launches, Spares, set_up_operation-Spares, set_up_operation-launched}

module _ (prepare : Operation → Option String) where
  -- The loop over an operation: what it leaves of the others, and of one that is not pending.
  Scheduled-Spares :
      (now : ℕ) (id : String) (m next : Manager)
      → IsKeyed m.op_map
      → Scheduled prepare now id m next
      → Spares prepare id m next
        × (is_pending (Map.get id m.statuses) ≡ false → next.launched ≡ m.launched)
  Scheduled-Spares now id m next keyed (inl (still, same)) =
      ((ground arith, ground arith, ground arith, λ j n. ground arith), λ p. ground arith)
  Scheduled-Spares now id m next keyed (inr (ctx, there, pends, inl (over, set_up))) = (
    set_up_operation-Spares prepare now id ctx.dependents (set_status id starting m) next keyed
        set_up,
    λ p. absurd (ground (arith, p, pends)),
  )
  Scheduled-Spares now id m next keyed (inr (ctx, there, pends, inr (not_over, same))) =
      ((ground arith, ground arith, ground arith, λ j n. ground arith), λ p. ground arith)

  Scheduled-launched :
      (now i : ℕ) (id : String) (op : Operation) (ctx : DependencyContext) (m next : Manager)
      → IsKeyed m.op_map
      → Map.get id m.op_map ≡ some op
      → find_index id m.operations ≡ some i
      → Map.get id m.dependency_map ≡ some ctx
      → is_pending (Map.get id m.statuses) ≡ true
      → are_over prepare ctx.dependencies m ≡ true
      → Scheduled prepare now id m next
      → contains id next.launched ≡ (launches prepare m op || contains id m.launched)
  Scheduled-launched now i id op ctx m next keyed there listed linked p over (inl (still, same)) =
      absurd (ground arith)
  Scheduled-launched now i id op ctx m next keyed there listed linked p over
        (inr (other, found, pends, inl (o, set_up))) =
      set_up_operation-launched prepare now i id op other.dependents (set_status id starting m) next
        keyed there listed set_up
  Scheduled-launched now i id op ctx m next keyed there listed linked p over
        (inr (other, found, pends, inr (not_over, same))) =
      let one = some_inj (sym found ∙ linked) in
      absurd (ground (arith, over, not_over, ap (λ c. are_over prepare c.dependencies m) one))

  -- An operation that is not pending is not given to the provider by the loop.
  schedule-launched_not :
      (now : ℕ) (ids : List String) (id : String) (m next : Manager)
      → IsKeyed m.op_map
      → schedule prepare now ids m ≡ ok next
      → is_pending (Map.get id m.statuses) ≡ false
      → contains id next.launched ≡ contains id m.launched
  unfolding schedule
  schedule-launched_not now [] id m next keyed h p = ground arith
  schedule-launched_not now (head ∷ ids) id m next keyed h p =
      let (mid, first, later) =
        >>=-eq-ok (schedule_operation prepare now head m) (schedule prepare now ids) h in
      let did = schedule_operation_cases prepare now head m mid first in
      let framed = schedule_operation-Framed prepare now head m mid keyed did in
      let spares = Scheduled-Spares now head m mid keyed did in
      elim (Bool-cases (str_eq head id)) [
        | inl here ↦
            let still = unmoved prepare now head id m mid framed did p in
            schedule-launched_not now ids id mid next (rw (framed.0) keyed) later (rw (still.0) p)
            ∙ ap (contains id) (spares.1 (rw ((eq_iff head id).0 here) p))
        | inr apart ↦
            schedule-launched_not now ids id mid next (rw (framed.0) keyed) later
              (rw (framed.3 id apart) p)
            ∙ spares.0.3 id apart
      ]

  schedule-launches :
      (now i : ℕ) (ids : List String) (id : String) (op : Operation) (ctx : DependencyContext)
      (m next : Manager)
      → IsKeyed m.op_map
      → schedule prepare now ids m ≡ ok next
      → contains id ids ≡ true
      → is_pending (Map.get id m.statuses) ≡ true
      → Map.get id m.op_map ≡ some op
      → find_index id m.operations ≡ some i
      → Map.get id m.dependency_map ≡ some ctx
      → are_over prepare ctx.dependencies m ≡ true
      → contains id next.launched ≡ (launches prepare m op || contains id m.launched)
  unfolding schedule
  schedule-launches now i [] id op ctx m next keyed h c p there listed linked over =
      absurd (ground arith)
  schedule-launches now i (head ∷ ids) id op ctx m next keyed h c p there listed linked over =
      let (mid, first, later) =
        >>=-eq-ok (schedule_operation prepare now head m) (schedule prepare now ids) h in
      let did = schedule_operation_cases prepare now head m mid first in
      let framed = schedule_operation-Framed prepare now head m mid keyed did in
      let spares = Scheduled-Spares now head m mid keyed did in
      elim (Bool-cases (str_eq head id)) [
        | inl here ↦
            let did_id : Scheduled prepare now id m mid = rw (← (eq_iff head id).0 here) did in
            let at_head = schedule_head prepare now id ctx m mid keyed did_id p linked in
            schedule-launched_not now ids id mid next (rw (framed.0) keyed) later at_head.0
            ∙ Scheduled-launched now i id op ctx m mid keyed there listed linked p over did_id
        | inr apart ↦
            schedule-launches now i ids id op ctx mid next (rw (framed.0) keyed) later
              (ground arith) (rw (framed.3 id apart) p) (rw (framed.0) there)
              (rw (spares.0.1) listed) (rw (framed.1) linked)
              (rw (are_over-Framed prepare head ctx.dependencies m mid framed) over)
            ∙ ground (arith, spares.0.2, spares.0.3 id apart)
      ]

  -- After the scheduling of a group has returned, an operation of it that was pending is waited
  -- for if each of its dependencies had finished or been stopped when the scheduling began, and it
  -- is among the operations that the provider has been given if it was before, or if the flow is not
  -- stopped and its arguments resolve, and not otherwise. The operation is listed by the job, and
  -- operations stand in the manager's map under their own names.
  pub schedule-launched :
      (now i : ℕ) (ids : List String) (id : String) (op : Operation) (ctx : DependencyContext)
      (m next : Manager)
      → IsKeyed m.op_map
      → schedule prepare now ids m ≡ ok next
      → contains id ids ≡ true
      → is_pending (Map.get id m.statuses) ≡ true
      → Map.get id m.op_map ≡ some op
      → find_index id m.operations ≡ some i
      → Map.get id m.dependency_map ≡ some ctx
      → are_over prepare ctx.dependencies m ≡ true
      → (contains id next.promises ≡ true)
        × (contains id next.launched ≡ (launches prepare m op || contains id m.launched))
  schedule-launched now i ids id op ctx m next keyed h c p there listed linked over = (
    schedule-starts prepare now ids id ctx m next keyed h c p linked over,
    schedule-launches now i ids id op ctx m next keyed h c p there listed linked over,
  )

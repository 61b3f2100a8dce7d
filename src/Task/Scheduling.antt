-- ===== src/Task/Scheduling.antt =====
-- Which operations of a group are started: the loop of `start` in TaskManager.ts over the
-- operations of a group, and the run that follows a restart.
use nosana_node.Base.{
  String, str_eq, eq_iff, eq_refl, ℕ, ◌≡◌, refl, sym, ◌∙◌, ◌⊎◌, inl, inr, Bool, true, false, Option,
  some, List, [], ◌∷◌, arith, some_inj, contains, Bool-cases, Option-cases, ok, >>=-eq-ok, all,
}
use nosana_node.Base.Map
use nosana_node.Base.Map.{Map}
use nosana_node.Operation.{Operation}
use nosana_node.Plan.{DependencyContext}
use nosana_node.Task.{starting, waiting, Manager, set_status}
use nosana_node.Task.Launching.{IsKeyed, set_up_operation-frame}
use nosana_node.Task.Runs.{set_up_operation}
use nosana_node.Task.Groups.{schedule_operation, schedule, is_over, is_pending}

module _ (prepare : Operation → Option String) where
  -- Whether all the dependencies have finished or been stopped.
  abbrev pub are_over : List String → Manager → Bool
  are_over deps m = all (λ dep. is_over (Map.get dep m.statuses)) deps

  -- What the loop does with an operation.
  abbrev pub Scheduled : ℕ → String → Manager → Manager → Type 0
  Scheduled now id m next =
      ((is_pending (Map.get id m.statuses) ≡ false) × (m ≡ next))
      ⊎ (ctx : DependencyContext) × (Map.get id m.dependency_map ≡ some ctx)
        × (is_pending (Map.get id m.statuses) ≡ true)
        × (((are_over ctx.dependencies m ≡ true)
              × (set_up_operation prepare now id ctx.dependents (set_status id starting m)
                  ≡ ok next))
            ⊎ ((are_over ctx.dependencies m ≡ false) × (set_status id waiting m ≡ next)))

  pub schedule_operation_cases :
      (now : ℕ) (id : String) (m next : Manager)
      → schedule_operation prepare now id m ≡ ok next
      → Scheduled now id m next
  unfolding schedule_operation
  schedule_operation_cases now id m next h =
      elim (Bool-cases (is_pending (Map.get id m.statuses))) [
        | inr still ↦ inl (still, ground arith)
        | inl pends ↦ elim (Option-cases (Map.get id m.dependency_map)) [
          | inl gone ↦ absurd (ground arith)
          | inr (ctx, there) ↦ elim (Bool-cases (are_over ctx.dependencies m)) [
            | inl over ↦ inr (ctx, there, pends, inl (over, ground arith))
            | inr not_over ↦ inr (ctx, there, pends, inr (not_over, ground arith))
          ]
        ]
      ]

  -- What the loop leaves as it is when it passes an operation.
  abbrev pub Framed : String → Manager → Manager → Type 0
  Framed id m next =
      (next.op_map ≡ m.op_map)
      × (next.dependency_map ≡ m.dependency_map)
      × ((j : String) → str_eq id j ≡ false → contains j next.promises ≡ contains j m.promises)
      × ((j : String) → str_eq id j ≡ false → Map.get j next.statuses ≡ Map.get j m.statuses)
      × (is_over (Map.get id next.statuses) ≡ is_over (Map.get id m.statuses))

  set_up_operation-Framed :
      (now : ℕ) (id : String) (dependent : List String) (m next : Manager)
      → IsKeyed m.op_map
      → is_pending (Map.get id m.statuses) ≡ true
      → set_up_operation prepare now id dependent (set_status id starting m) ≡ ok next
      → Framed id m next
        × (is_pending (Map.get id next.statuses) ≡ false)
        × (contains id next.promises ≡ true)
  set_up_operation-Framed now id dependent m next keyed p h =
      let fresh = Map.get-set_self id starting m.statuses in
      let framed =
        set_up_operation-frame prepare now id dependent (set_status id starting m) next keyed h in
      let new = framed.4 (rw fresh refl) (rw fresh refl) in
      (
        (
          framed.0,
          framed.1,
          (λ j n. rw (framed.2 j, n) refl),
          (λ j n. framed.3 j n ∙ (rw (Map.get-set id j starting m.statuses, n) refl)),
          ground (arith, new.1, p),
        ),
        new.0,
        rw (framed.2 id, eq_refl id) refl,
      )

  pub schedule_operation-Framed :
      (now : ℕ) (id : String) (m next : Manager)
      → IsKeyed m.op_map
      → Scheduled now id m next
      → Framed id m next
  schedule_operation-Framed now id m next keyed (inl (still, same)) =
      (ground arith, ground arith, (λ j n. ground arith), (λ j n. ground arith), ground arith)
  schedule_operation-Framed now id m next keyed (inr (ctx, there, pends, inl (over, set_up))) =
      (set_up_operation-Framed now id ctx.dependents m next keyed pends set_up).0
  schedule_operation-Framed now id m next keyed (inr (ctx, there, pends, inr (not_over, same))) = (
    ground arith,
    ground arith,
    (λ j n. ground arith),
    (λ j n. ground (arith, Map.get-set id j waiting m.statuses)),
    ground (arith, Map.get-set_self id waiting m.statuses),
  )

  over-Framed :
      (id j : String) (m next : Manager)
      → Framed id m next
      → is_over (Map.get j next.statuses) ≡ is_over (Map.get j m.statuses)
  over-Framed id j m next framed = elim (Bool-cases (str_eq id j)) [
    | inl here ↦ ground (arith, framed.4, eq_iff id j)
    | inr other_id ↦ rw (framed.3 j other_id) refl
  ]

  pub are_over-Framed :
      (id : String) (deps : List String) (m next : Manager)
      → Framed id m next
      → are_over deps next ≡ are_over deps m
  are_over-Framed id [] m next framed = refl
  are_over-Framed id (dep ∷ deps) m next framed =
      rw (over-Framed id dep m next framed, are_over-Framed id deps m next framed) refl

  pub unmoved :
      (now : ℕ) (head id : String) (m mid : Manager)
      → Framed head m mid
      → Scheduled now head m mid
      → is_pending (Map.get id m.statuses) ≡ false
      → (Map.get id mid.statuses ≡ Map.get id m.statuses)
        × (contains id mid.promises ≡ contains id m.promises)
  unmoved now head id m mid framed (inl (still, same)) p = (ground arith, ground arith)
  unmoved now head id m mid framed (inr (ctx, there, pends, how)) p =
      let apart : str_eq head id ≡ false = ground (arith, eq_iff head id) in
      (framed.3 id apart, framed.2 id apart)

  over_or_not :
      (a b : DependencyContext) (m : Manager)
      → a ≡ b
      → are_over a.dependencies m ≡ true
      → are_over b.dependencies m ≡ false
      → ⊥
  over_or_not a b m same o n = cc

  pub schedule_head :
      (now : ℕ) (id : String) (ctx : DependencyContext) (m mid : Manager)
      → IsKeyed m.op_map
      → Scheduled now id m mid
      → is_pending (Map.get id m.statuses) ≡ true
      → Map.get id m.dependency_map ≡ some ctx
      → (is_pending (Map.get id mid.statuses) ≡ false)
        × (are_over ctx.dependencies m ≡ true → contains id mid.promises ≡ true)
        × (are_over ctx.dependencies m ≡ false
            → (Map.get id mid.statuses ≡ some waiting)
              × (contains id mid.promises ≡ contains id m.promises))
  schedule_head now id ctx m mid keyed (inl (still, same)) p c = absurd (ground arith)
  schedule_head now id ctx m mid keyed (inr (ctx2, there, pends, inl (over, set_up))) p c =
      let started = set_up_operation-Framed now id ctx2.dependents m mid keyed pends set_up in
      let same = some_inj (sym there ∙ c) in
      (started.1, (λ o. started.2), (λ o. absurd (over_or_not ctx2 ctx m same over o)))
  schedule_head now id ctx m mid keyed (inr (ctx2, there, pends, inr (not_over, same))) p c =
      let waits : Map.get id mid.statuses ≡ some waiting =
        ground (arith, Map.get-set_self id waiting m.statuses) in
      (
        rw waits refl,
        (λ o. absurd (over_or_not ctx ctx2 m (sym (some_inj (sym there ∙ c))) o not_over)),
        (λ o. (waits, ground arith)),
      )

  -- What has been seen to, or was not pending, is left alone by the rest of the loop.
  schedule-frame :
      (now : ℕ) (ids : List String) (id : String) (m next : Manager)
      → IsKeyed m.op_map
      → schedule prepare now ids m ≡ ok next
      → is_pending (Map.get id m.statuses) ≡ false
      → (Map.get id next.statuses ≡ Map.get id m.statuses)
        × (contains id next.promises ≡ contains id m.promises)
  unfolding schedule
  schedule-frame now [] id m next keyed h p = (ground arith, ground arith)
  schedule-frame now (head ∷ ids) id m next keyed h p =
      let (mid, first, later) =
        >>=-eq-ok (schedule_operation prepare now head m) (schedule prepare now ids) h in
      let did = schedule_operation_cases now head m mid first in
      let framed = schedule_operation-Framed now head m mid keyed did in
      let still = unmoved now head id m mid framed did p in
      let rest = schedule-frame now ids id mid next (rw (framed.0) keyed) later (rw (still.0) p) in
      (rest.0 ∙ still.0, rest.1 ∙ still.1)

  schedule_all :
      (now : ℕ) (ids : List String) (id : String) (ctx : DependencyContext) (m next : Manager)
      → IsKeyed m.op_map
      → schedule prepare now ids m ≡ ok next
      → contains id ids ≡ true
      → is_pending (Map.get id m.statuses) ≡ true
      → Map.get id m.dependency_map ≡ some ctx
      → (are_over ctx.dependencies m ≡ true → contains id next.promises ≡ true)
        × (are_over ctx.dependencies m ≡ false
            → (Map.get id next.statuses ≡ some waiting)
              × (contains id next.promises ≡ contains id m.promises))
  unfolding schedule
  schedule_all now [] id ctx m next keyed h i p c = absurd (ground arith)
  schedule_all now (head ∷ ids) id ctx m next keyed h i p c =
      let (mid, first, later) =
        >>=-eq-ok (schedule_operation prepare now head m) (schedule prepare now ids) h in
      let did = schedule_operation_cases now head m mid first in
      let framed = schedule_operation-Framed now head m mid keyed did in
      elim (Bool-cases (str_eq head id)) [
        | inl here ↦
            let at_head =
              schedule_head now id ctx m mid keyed (rw (← (eq_iff head id).0 here) did) p c in
            let rest = schedule-frame now ids id mid next (rw (framed.0) keyed) later at_head.0 in
            (
              (λ o. rest.1 ∙ at_head.1 o),
              (λ o. (rest.0 ∙ (at_head.2 o).0, rest.1 ∙ (at_head.2 o).1)),
            )
        | inr there ↦
            let rest =
              schedule_all now ids id ctx mid next (rw (framed.0) keyed) later (ground arith)
                (rw (framed.3 id there) p) (rw (framed.1) c) in
            (
              (λ o. rest.0 (rw (are_over-Framed head ctx.dependencies m mid framed) o)),
              (λ o. (
                (rest.1 (rw (are_over-Framed head ctx.dependencies m mid framed) o)).0,
                (rest.1 (rw (are_over-Framed head ctx.dependencies m mid framed) o)).1
                    ∙ framed.2 id there,
              )),
            )
      ]

  -- After the scheduling of a group has returned, an operation of it that was pending is waited for
  -- if each of its dependencies had finished or been stopped when the scheduling began. The
  -- operations stand in the manager's map under their own names.
  pub schedule-starts :
      (now : ℕ) (ids : List String) (id : String) (ctx : DependencyContext) (m next : Manager)
      → IsKeyed m.op_map
      → schedule prepare now ids m ≡ ok next
      → contains id ids ≡ true
      → is_pending (Map.get id m.statuses) ≡ true
      → Map.get id m.dependency_map ≡ some ctx
      → are_over ctx.dependencies m ≡ true
      → contains id next.promises ≡ true
  schedule-starts now ids id ctx m next keyed h i p c =
      (schedule_all now ids id ctx m next keyed h i p c).0

  -- After the scheduling of a group has returned, an operation of it that was pending is marked as
  -- waiting if one of its dependencies had neither finished nor been stopped when the scheduling
  -- began, and it is not waited for unless it was before. The operations stand in the manager's map
  -- under their own names.
  pub schedule-waits :
      (now : ℕ) (ids : List String) (id : String) (ctx : DependencyContext) (m next : Manager)
      → IsKeyed m.op_map
      → schedule prepare now ids m ≡ ok next
      → contains id ids ≡ true
      → is_pending (Map.get id m.statuses) ≡ true
      → Map.get id m.dependency_map ≡ some ctx
      → are_over ctx.dependencies m ≡ false
      → (Map.get id next.statuses ≡ some waiting)
        × (contains id next.promises ≡ contains id m.promises)
  schedule-waits now ids id ctx m next keyed h i p c =
      (schedule_all now ids id ctx m next keyed h i p c).1

-- ===== src/Task/Releasing.antt =====
-- The operations that an operation releases once it is up: the loop of the listener of
-- 'healthcheck:startup:success' in operations/runTaskManagerOperation.ts.
use nosana_node.Base.{
  String, str_eq, eq_iff, ℕ, ◌≡◌, inl, inr, true, false, ◌&&◌, ◌||◌, Option, some, List, [], ◌∷◌,
  arith, if◌then◌else◌, contains, Bool-cases, Result, ok, err, none, Option-cases, >>=-eq-ok,
}
use nosana_node.Base.Map
use nosana_node.Operation.{Operation}
use nosana_node.Task.{Manager, ControlError, no_dependency_context}
use nosana_node.Task.Runs.{set_up_operation, is_unstarted, release}
use nosana_node.Task.Launching.{IsKeyed, set_up_operation-frame}

module _ (prepare : Operation → Option String) where
  -- One round of the loop.
  abbrev pub release_one : ℕ → String → Manager → Result ControlError Manager
  release_one now id m =
      if is_unstarted (Map.get id m.statuses)
      then elim (Map.get id m.dependency_map) [
        | none ↦ err no_dependency_context
        | some ctx ↦ set_up_operation prepare now id ctx.dependents m
      ]
      else ok m

  pub release_one-frame :
      (now : ℕ) (id : String) (m next : Manager)
      → IsKeyed m.op_map
      → release_one now id m ≡ ok next
      → (next.op_map ≡ m.op_map)
        × ((j : String)
            → contains j next.promises
              ≡ ((is_unstarted (Map.get id m.statuses) && str_eq id j) || contains j m.promises))
        × ((j : String) → str_eq id j ≡ false → Map.get j next.statuses ≡ Map.get j m.statuses)
  release_one-frame now id m next keyed h =
      elim (Bool-cases (is_unstarted (Map.get id m.statuses))) [
        | inl fresh ↦ elim (Option-cases (Map.get id m.dependency_map)) [
          | inl gone ↦ absurd (ground arith)
          | inr (ctx, there) ↦
              let framed =
                set_up_operation-frame prepare now id ctx.dependents m next keyed (ground arith) in
              (framed.0, (λ j. rw fresh (framed.2 j)), framed.3)
        ]
        | inr begun ↦
            let same : m ≡ next = ground arith in
            (ground arith, (λ j. ground arith), (λ j n. ground arith))
      ]

  release_all :
      (now : ℕ) (ids : List String) (id : String) (m next : Manager)
      → IsKeyed m.op_map
      → release prepare now ids m ≡ ok next
      → contains id m.promises ≡ true
      → contains id next.promises ≡ true
  unfolding release
  release_all now [] id m next keyed h c = ground arith
  release_all now (head ∷ ids) id m next keyed h c =
      let (mid, first, later) = >>=-eq-ok (release_one now head m) (release prepare now ids) h in
      let framed = release_one-frame now head m mid keyed first in
      release_all now ids id mid next (rw (framed.0) keyed) later (ground (arith, framed.1 id))

  -- When an operation is up and the loop over its dependents returns, each of them that has not
  -- started is set up and waited for, whatever became of its other dependencies. The operations
  -- stand in the manager's map under their own names.
  pub release-starts :
      (now : ℕ) (ids : List String) (id : String) (m next : Manager)
      → IsKeyed m.op_map
      → release prepare now ids m ≡ ok next
      → contains id ids ≡ true
      → is_unstarted (Map.get id m.statuses) ≡ true
      → contains id next.promises ≡ true
  unfolding release
  release-starts now [] id m next keyed h i u = absurd (ground arith)
  release-starts now (head ∷ ids) id m next keyed h i u =
      let (mid, first, later) = >>=-eq-ok (release_one now head m) (release prepare now ids) h in
      let framed = release_one-frame now head m mid keyed first in
      elim (Bool-cases (str_eq head id)) [
        | inl here ↦
            release_all now ids id mid next (rw (framed.0) keyed) later
              (ground (arith, framed.1 id, eq_iff head id))
        | inr apart ↦
            release-starts now ids id mid next (rw (framed.0) keyed) later (ground arith)
              (rw (framed.2 id apart) u)
      ]

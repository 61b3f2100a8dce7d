-- ===== src/Task/Launches/Releasing.antt =====
-- Which dependents of an operation are given to the provider once it is up: the listener of
-- 'healthcheck:startup:success' in operations/runTaskManagerOperation.ts.
use nosana_node.Base.{
  String, str_eq, eq_iff, ℕ, ◌≡◌, ◌∙◌, inl, inr, Bool, true, ◌&&◌, ◌||◌, Option, some, List, [],
  ◌∷◌, arith, contains, Bool-cases, Option-cases, ok, >>=-eq-ok,
}
use nosana_node.Base.Map
use nosana_node.Base.Map.{Map}
use nosana_node.Operation.{Operation, find_index}
use nosana_node.Task.{Manager}
use nosana_node.Task.Runs.{set_up_operation, release, is_unstarted}
use nosana_node.Task.Launching.{IsKeyed}
use nosana_node.Task.Releasing.{release_one, release_one-frame, release-starts}
use nosana_node.Task.Launches.{launches, Spares, set_up_operation-Spares, set_up_operation-launched}

module _ (prepare : Operation → Option String) where
  release_one-launched :
      (now : ℕ) (id : String) (m next : Manager)
      → IsKeyed m.op_map
      → release_one prepare now id m ≡ ok next
      → Spares prepare id m next
        × ((i : ℕ) (op : Operation)
            → Map.get id m.op_map ≡ some op
            → find_index id m.operations ≡ some i
            → contains id next.launched ≡ (
                (is_unstarted (Map.get id m.statuses) && launches prepare m op)
                || contains id m.launched))
  release_one-launched now id m next keyed h =
      elim (Bool-cases (is_unstarted (Map.get id m.statuses))) [
        | inr begun ↦ (
          (ground arith, ground arith, ground arith, λ j n. ground arith),
          λ i op there listed. ground arith,
        )
        | inl fresh ↦ elim (Option-cases (Map.get id m.dependency_map)) [
          | inl gone ↦ absurd (ground arith)
          | inr (ctx, linked) ↦
              let set_up : set_up_operation prepare now id ctx.dependents m ≡ ok next =
                ground arith in
              (
                set_up_operation-Spares prepare now id ctx.dependents m next keyed set_up,
                λ i op there listed. ground (
                  arith,
                  fresh,
                  set_up_operation-launched prepare now i id op ctx.dependents m next keyed there
                      listed set_up,
                ),
              )
        ]
      ]

  -- What has been decided on an operation is not changed by the rest of the loop.
  release-settled :
      (now i : ℕ) (ids : List String) (id : String) (op : Operation) (before : Bool)
      (m next : Manager)
      → IsKeyed m.op_map
      → release prepare now ids m ≡ ok next
      → Map.get id m.op_map ≡ some op
      → find_index id m.operations ≡ some i
      → contains id m.launched ≡ (launches prepare m op || before)
      → contains id next.launched ≡ (launches prepare m op || before)
  unfolding release
  release-settled now i [] id op before m next keyed h there listed c = ground arith
  release-settled now i (head ∷ ids) id op before m next keyed h there listed c =
      let (mid, first, later) =
        >>=-eq-ok (release_one prepare now head m) (release prepare now ids) h in
      let (spares, at_head) = release_one-launched now head m mid keyed first in
      let same : contains id mid.launched ≡ (launches prepare m op || before) =
        elim (Bool-cases (str_eq head id)) [
          | inl here ↦
              let e = (eq_iff head id).0 here in
              ground (arith, e, c, at_head i op (rw e there) (rw e listed))
          | inr apart ↦ spares.3 id apart ∙ c
        ] in
      release-settled now i ids id op before mid next (rw (spares.0) keyed) later
        (rw (spares.0) there) (rw (spares.1) listed) (rw (spares.2) same)
      ∙ ground (arith, spares.2)

  -- When an operation is up and the loop over its dependents returns, each of them that has not
  -- started is waited for, whatever became of its other dependencies, and it is among the operations
  -- that the provider has been given if it was before, or if the flow is not stopped and its
  -- arguments resolve, and not otherwise. The dependent is listed by the job, and operations stand
  -- in the manager's map under their own names.
  pub release-launched :
      (now i : ℕ) (ids : List String) (id : String) (op : Operation) (m next : Manager)
      → IsKeyed m.op_map
      → release prepare now ids m ≡ ok next
      → contains id ids ≡ true
      → is_unstarted (Map.get id m.statuses) ≡ true
      → Map.get id m.op_map ≡ some op
      → find_index id m.operations ≡ some i
      → (contains id next.promises ≡ true)
        × (contains id next.launched ≡ (launches prepare m op || contains id m.launched))
  unfolding release
  release-launched now i [] id op m next keyed h c u there listed = absurd (ground arith)
  release-launched now i (head ∷ ids) id op m next keyed h c u there listed =
      let (mid, first, later) =
        >>=-eq-ok (release_one prepare now head m) (release prepare now ids) h in
      let (spares, at_head) = release_one-launched now head m mid keyed first in
      let framed = release_one-frame prepare now head m mid keyed first in
      let waits = release-starts prepare now (head ∷ ids) id m next keyed h c u in
      let same : launches prepare mid op ≡ launches prepare m op = ground (arith, spares.2) in
      elim (Bool-cases (str_eq head id)) [
        | inl here ↦
            let e = (eq_iff head id).0 here in
            let now_in : contains id mid.launched
                ≡ (launches prepare mid op || contains id m.launched) =
              ground (arith, e, u, same, at_head i op (rw e there) (rw e listed)) in
            (
              waits,
              release-settled now i ids id op (contains id m.launched) mid next
                    (rw (spares.0) keyed) later (rw (spares.0) there) (rw (spares.1) listed) now_in
                  ∙ ground (arith, same),
            )
        | inr apart ↦ (
          waits,
          (release-launched now i ids id op mid next (rw (spares.0) keyed) later (ground arith)
                (rw (framed.2 id apart) u) (rw (spares.0) there) (rw (spares.1) listed)).1
              ∙ ground (arith, same, spares.3 id apart),
        )
      ]

-- ===== src/Task/Keeping.antt =====
-- What the operations of a task manager leave as `build` of TaskManager.ts made it.
use nosana_node.Base.{
  String, ℕ, ◌≡◌, refl, sym, ap, ◌∙◌, inl, inr, Option, none, some, List, [], ◌∷◌, arith,
  if◌then◌else◌, Result, ok, err, recover, Result-cases, Option-cases, ok_inj, >>=-eq-ok,
}
use nosana_node.Base.Map
use nosana_node.Base.Map.{Map}
use nosana_node.Operation.{Operation, find_index}
use nosana_node.Plan.{ExecutionContext, DependencyContext}
use nosana_node.Task.{
  Manager, StopReason, Progress, ControlError, stop_operation, restart_operation, finish_stop,
  starting, drop_endpoints, set_status, get_status, no_dependency_context,
}
use nosana_node.Task.Runs.{run_operation, set_up_operation, release, is_unstarted, on_main_abort}
use nosana_node.Task.Groups.{
  set_all, schedule, schedule_operation, finish_restart, stop_quietly, stop_servers, stop_unstarted,
  abort_runs, abort_main, stop_all,
}
use nosana_node.Task.GroupControl.{stop_each, restart_each}

-- What `build` makes.
abbrev pub built_of : Manager → Map Operation × List ExecutionContext × Map DependencyContext
built_of m = (m.op_map, m.plan, m.dependency_map)

-- The result of a call, or the manager where the call throws.
abbrev after : Result ControlError Manager → Manager → Manager
after result m = recover result m

pub stop_operation-built_of :
    (group id : String) (m : Manager) → built_of (after (stop_operation group id m) m) ≡ built_of m
unfolding stop_operation
stop_operation-built_of group id m = ground arith

pub restart_operation-built_of :
    (group id : String) (m : Manager)
    → built_of (after (restart_operation group id m) m) ≡ built_of m
unfolding restart_operation
restart_operation-built_of group id m = ground arith

pub set_all-built_of :
    (ids : List String) (p : Progress) (m : Manager) → built_of (set_all ids p m) ≡ built_of m
set_all-built_of [] p m = refl
set_all-built_of (id ∷ ids) p m = set_all-built_of ids p (set_status id p m)

pub stop_each-built_of :
    (group : String) (ids : List String) (m : Manager)
    → built_of (stop_each group ids m) ≡ built_of m
unfolding stop_each
stop_each-built_of group [] m = refl
stop_each-built_of group (id ∷ ids) m =
    stop_each-built_of group ids (after (stop_operation group id m) m)
    ∙ stop_operation-built_of group id m

pub restart_each-built_of :
    (group : String) (ids : List String) (m : Manager)
    → built_of (restart_each group ids m) ≡ built_of m
unfolding restart_each
restart_each-built_of group [] m = refl
restart_each-built_of group (id ∷ ids) m =
    restart_each-built_of group ids (after (restart_operation group id m) m)
    ∙ restart_operation-built_of group id m

pub stop_quietly-built_of :
    (group : Option String) (id : String) (m : Manager)
    → built_of (stop_quietly group id m) ≡ built_of m
stop_quietly-built_of none id m = refl
stop_quietly-built_of (some group) id m = stop_operation-built_of group id m

pub stop_servers-built_of :
    (id : String) (ops : Map Operation) (m : Manager)
    → built_of (stop_servers id ops m) ≡ built_of m
unfolding stop_servers
stop_servers-built_of id [] m = refl
stop_servers-built_of id ((candidate, op) ∷ ops) m = ground (
  arith,
  stop_quietly-built_of m.current_group candidate m,
  stop_servers-built_of id ops m,
  stop_servers-built_of id ops (stop_quietly m.current_group candidate m),
)

pub stop_unstarted-built_of :
    (now : ℕ) (reason : StopReason) (ids : List String) (m : Manager)
    → built_of (stop_unstarted now reason ids m) ≡ built_of m
unfolding stop_unstarted
stop_unstarted-built_of now reason [] m = refl
stop_unstarted-built_of now reason (id ∷ ids) m = elim (Option-cases (find_index id m.operations)) [
  | inl d ↦ ground (arith, d)
  | inr (index, d) ↦
      rw (d, stop_unstarted) (stop_unstarted-built_of now reason ids _ ∙ ground arith)
]

pub on_main_abort-built_of :
    (text : StopReason → String) (reason : StopReason) (id : String) (index : ℕ) (m : Manager)
    → built_of (on_main_abort text reason id index m) ≡ built_of m
unfolding on_main_abort
on_main_abort-built_of text reason id index m = ground arith

pub abort_runs-built_of :
    (text : StopReason → String) (reason : StopReason) (ids : List String) (m : Manager)
    → built_of (abort_runs text reason ids m) ≡ built_of m
unfolding abort_runs
abort_runs-built_of text reason [] m = refl
abort_runs-built_of text reason (id ∷ ids) m = elim (Option-cases (find_index id m.operations)) [
  | inl d ↦ rw (d, abort_runs) (abort_runs-built_of text reason ids m)
  | inr (index, d) ↦
      rw (d, abort_runs)
        (abort_runs-built_of text reason ids (on_main_abort text reason id index m)
          ∙ on_main_abort-built_of text reason id index m)
]

pub abort_main-built_of :
    (text : StopReason → String) (reason : StopReason) (m : Manager)
    → built_of (abort_main text reason m) ≡ built_of m
unfolding abort_main
abort_main-built_of text reason m = elim (Option-cases m.main_abort) [
  | inl d ↦
      rw (d, abort_main)
        (abort_runs-built_of text reason (Map.keys m.aborts)
          (record m { main_abort = some reason }))
  | inr (first, d) ↦ ground (arith, d)
]

pub stop_all-built_of :
    (text : StopReason → String) (now : ℕ) (reason : StopReason) (m : Manager)
    → built_of (stop_all text now reason m) ≡ built_of m
unfolding stop_all
stop_all-built_of text now reason m =
    let aborted = abort_main text reason (record m { status = get_status reason }) in
    ground (
      arith,
      stop_unstarted-built_of now reason (Map.keys aborted.op_map) aborted,
      abort_main-built_of text reason (record m { status = get_status reason }),
    )

pub finish_stop-built_of :
    (id : String) (now : ℕ) (m : Manager) → built_of (finish_stop id now m) ≡ built_of m
unfolding finish_stop drop_endpoints
finish_stop-built_of id now m = ground arith

module _ (prepare : Operation → Option String) where
  pub run_operation-built_of :
      (now : ℕ) (op : Operation) (dependent : List String) (m : Manager)
      → built_of (run_operation prepare now op dependent m) ≡ built_of m
  unfolding run_operation
  run_operation-built_of now op dependent m = ground arith

  pub set_up_operation-built_of :
      (now : ℕ) (id : String) (dependent : List String) (m next : Manager)
      → set_up_operation prepare now id dependent m ≡ ok next
      → built_of next ≡ built_of m
  unfolding set_up_operation
  set_up_operation-built_of now id dependent m next h = elim (Option-cases (Map.get id m.op_map)) [
    | inl d ↦ absurd (ground (arith, d, h))
    | inr (op, d) ↦ ground (arith, d, h, run_operation-built_of now op dependent m)
  ]

  pub schedule_operation-built_of :
      (now : ℕ) (id : String) (m next : Manager)
      → schedule_operation prepare now id m ≡ ok next
      → built_of next ≡ built_of m
  unfolding schedule_operation
  schedule_operation-built_of now id m next h = elim (Option-cases (Map.get id m.dependency_map)) [
    | inl d ↦ ground (arith, d, h)
    | inr (ctx, d) ↦ ground (
      arith,
      d,
      h,
      set_up_operation-built_of now id ctx.dependents (set_status id starting m) next,
    )
  ]

  pub schedule-built_of :
      (now : ℕ) (ids : List String) (m next : Manager)
      → schedule prepare now ids m ≡ ok next
      → built_of next ≡ built_of m
  unfolding schedule
  schedule-built_of now [] m next h = sym (ap built_of (ok_inj h))
  schedule-built_of now (id ∷ ids) m next h =
      let (mid, first, later) = >>=-eq-ok (schedule_operation prepare now id m) _ h in
      schedule-built_of now ids mid next later ∙ schedule_operation-built_of now id m mid first

  -- One round of the loop of `release`.
  abbrev release_one : ℕ → String → Manager → Result ControlError Manager
  release_one now id m =
      if is_unstarted (Map.get id m.statuses)
      then elim (Map.get id m.dependency_map) [
        | none ↦ err no_dependency_context
        | some ctx ↦ set_up_operation prepare now id ctx.dependents m
      ]
      else ok m

  pub release_one-built_of :
      (now : ℕ) (id : String) (m next : Manager)
      → release_one now id m ≡ ok next
      → built_of next ≡ built_of m
  release_one-built_of now id m next h = elim (Option-cases (Map.get id m.dependency_map)) [
    | inl d ↦ ground (arith, d, h)
    | inr (ctx, d) ↦ ground (arith, d, h, set_up_operation-built_of now id ctx.dependents m next)
  ]

  pub release-built_of :
      (now : ℕ) (ids : List String) (m next : Manager)
      → release prepare now ids m ≡ ok next
      → built_of next ≡ built_of m
  unfolding release
  release-built_of now [] m next h = sym (ap built_of (ok_inj h))
  release-built_of now (id ∷ ids) m next h =
      let (mid, first, later) = >>=-eq-ok (release_one now id m) (release prepare now ids) h in
      release-built_of now ids mid next later ∙ release_one-built_of now id m mid first

  pub finish_restart-built_of :
      (now : ℕ) (id : String) (m : Manager)
      → built_of (finish_restart prepare now id m) ≡ built_of m
  unfolding finish_restart
  finish_restart-built_of now id m = elim (Result-cases (set_up_operation prepare now id [] m)) [
    | inl (e, d) ↦ ground (arith, d)
    | inr (ran, d) ↦ ground (arith, d, set_up_operation-built_of now id [] m ran d)
  ]

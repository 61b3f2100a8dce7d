-- ===== src/Task/Lifecycle.antt =====
-- A task manager from its bootstrap on: what happens to it, in any order, and what that leaves as
-- `build` of TaskManager.ts made it.
use nosana_node.Base.{
  String, ℕ, ◌≡◌, refl, sym, ap, ◌∙◌, inl, inr, Option, some, [], arith, Result, ok, recover,
  remove, or_else, Option-cases,
}
use nosana_node.Base.Map
use nosana_node.Base.Map.{Map}
use nosana_node.Operation.{Operation}
use nosana_node.Plan.{ExecutionContext, find_group, BuildError}
use nosana_node.Repository.{OpError, Flows}
use nosana_node.Task.{
  Manager, StopReason, Progress, pending, stop_operation, restart_operation, finish_stop,
}
use nosana_node.Task.Runs.{on_ready, on_start, on_exit, on_error, on_end, on_timeout}
use nosana_node.Task.Groups.{
  set_all, begin, begin_group, finish_restart, settle, end_group, conclude, stop_all, give_up,
}
use nosana_node.Task.GroupControl.{stop_group, restart_group}
use nosana_node.Task.Readiness.{bootstrap-IsReady}
use nosana_node.Task.Returning.{schedule-Returns}
use nosana_node.Task.Bootstrapping.{Draft, bootstrap}
use nosana_node.Task.Keeping.{
  built_of, finish_restart-built_of, finish_stop-built_of, release-built_of, restart_each-built_of,
  restart_operation-built_of, schedule-built_of, set_all-built_of, stop_all-built_of,
  stop_each-built_of, stop_operation-built_of, stop_servers-built_of,
}

module _ (prepare : Operation → Option String) where
  -- What happens to a task manager: the rounds of `start`, what it is told, what the provider
  -- reports, and what runs after an `await`. A stop or a restart that throws leaves it as it was.
  pub data Step (m : Manager) : Manager → Type 0 where
    begins : (now : ℕ) → Step m (begin now m)
    opens :
        (now : ℕ) (ctx : ExecutionContext) {next : Manager}
        → begin_group prepare now ctx m ≡ ok next
        → Step m next
    settles : (id : String) → Step m (settle id m)
    closes : Step m (end_group m)
    concludes : (now : ℕ) → Step m (conclude now m)
    gives_up : (now : ℕ) → Step m (give_up now m)
    stops_all :
        (text : StopReason → String) (now : ℕ) (reason : StopReason)
        → Step m (stop_all text now reason m)
    stops : (group id : String) → Step m (recover (stop_operation group id m) m)
    stops_group : (group : String) → Step m (recover (stop_group group m) m)
    stopped : (id : String) (now : ℕ) → Step m (finish_stop id now m)
    restarts : (group id : String) → Step m (recover (restart_operation group id m) m)
    restarts_group : (group : String) → Step m (recover (restart_group group m) m)
    restarted : (now : ℕ) (id : String) → Step m (finish_restart prepare now id m)
    runs : (now : ℕ) (id : String) (index : ℕ) → Step m (on_start now id index m)
    readies :
        (now : ℕ) (id : String) {next : Manager} → on_ready prepare now id m ≡ ok next → Step m next
    exits : (now : ℕ) (id : String) (index code : ℕ) → Step m (on_exit now id index code m)
    errs :
        (now : ℕ) (id : String) (index : ℕ) (error : OpError)
        → Step m (on_error now id index error m)
    ends : (id : String) → Step m (on_end id m)
    times_out : (id : String) (index : ℕ) (text : String) → Step m (on_timeout id index text m)

  pub data Reach (m : Manager) : Manager → Type 0 where
    here : Reach m m
    next : {mid last : Manager} → Reach m mid → Step mid last → Reach m last

  Step-built_of : {m n : Manager} → Step m n → built_of n ≡ built_of m
  unfolding begin begin_group settle end_group conclude give_up stop_group restart_group on_start
      on_ready on_exit on_error on_end on_timeout
  Step-built_of {m} (begins now) = set_all-built_of (Map.keys m.op_map) pending _ ∙ refl
  Step-built_of {m} (opens now ctx {next = n} h) =
      schedule-built_of prepare now ctx.ops (record m { current_group = some ctx.group }) n h
  Step-built_of {m} (settles id) =
      stop_servers-built_of id m.op_map (record m { promises = remove id m.promises })
  Step-built_of closes = refl
  Step-built_of (concludes now) = refl
  Step-built_of (gives_up now) = refl
  Step-built_of {m} (stops_all text now reason) = stop_all-built_of text now reason m
  Step-built_of {m} (stops group id) = stop_operation-built_of group id m
  Step-built_of {m} (stops_group group) = elim (Option-cases (find_group group m.plan)) [
    | inl d ↦ ground (arith, d)
    | inr (ctx, d) ↦ ground (
      arith,
      d,
      stop_each-built_of group ctx.ops (set_all ctx.ops Progress.stopping m),
      set_all-built_of ctx.ops Progress.stopping m,
    )
  ]
  Step-built_of {m} (stopped id now) = finish_stop-built_of id now m
  Step-built_of {m} (restarts group id) = restart_operation-built_of group id m
  Step-built_of {m} (restarts_group group) = elim (Option-cases (find_group group m.plan)) [
    | inl d ↦ ground (arith, d)
    | inr (ctx, d) ↦ ground (arith, d, restart_each-built_of group ctx.ops m)
  ]
  Step-built_of {m} (restarted now id) = finish_restart-built_of prepare now id m
  Step-built_of (runs now id index) = refl
  Step-built_of {m} (readies now id {next = n} h) =
      release-built_of prepare now (or_else (Map.get id m.released_by) []) m n h
  Step-built_of (exits now id index code) = refl
  Step-built_of {m} (errs now id index error) = ground arith
  Step-built_of (ends id) = refl
  Step-built_of (times_out id index text) = refl

  Reach-built_of : {m n : Manager} → Reach m n → built_of n ≡ built_of m
  Reach-built_of here = refl
  Reach-built_of (next r st) = Step-built_of st ∙ Reach-built_of r

  -- Whatever happens to a manager after its bootstrap, and in whatever order, the start of a group
  -- of its plan schedules the group without a throw.
  pub begin_group-Reach :
      {S : Type 0} (set_host : String → S → Result BuildError S) (set_defaults : S → S)
      (draft : Draft) (now later : ℕ) (store store' : S) (flows : Flows) (m n : Manager)
      (g : String) (ctx : ExecutionContext)
      → bootstrap set_host set_defaults draft now store flows ≡ ok (m, store')
      → Reach m n
      → find_group g n.plan ≡ some ctx
      → (ran : Manager) × (begin_group prepare later ctx n ≡ ok ran)
  unfolding begin_group
  begin_group-Reach set_host set_defaults draft now later store store' flows m n g ctx h r found =
      let (keyed, known) =
        bootstrap-IsReady set_host set_defaults draft now store store' flows m h in
      let same = Reach-built_of r in
      let op_map = ap (λ b. b.0) same in
      let plan = ap (λ b. b.1) same in
      let links = ap (λ b. b.2) same in
      schedule-Returns prepare later ctx.ops (record n { current_group = some ctx.group })
        (rw op_map keyed) (rw (op_map, links) (known g ctx (sym (ap (find_group g) plan) ∙ found)))

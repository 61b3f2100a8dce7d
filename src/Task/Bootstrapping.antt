-- ===== src/Task/Bootstrapping.antt =====
-- TaskManager.ts: the constructor, `build`, `init` and `bootstrap`. A definition is the list of its
-- operations, as in the flows; a task manager that is constructed without one has none.
use nosana_node.Base.{
  String, ℕ, Option, none, some, List, [], Result, ok, err, Bool, true, false, if◌then◌else◌,
}
use nosana_node.Base.Map
use nosana_node.Operation.{Operation}
use nosana_node.Plan.{BuildError, Built, build}
use nosana_node.Repository.{Flow, Flows, Status, waiting_for_job_definition, create_initial_flow}
use nosana_node.Task.{Manager, Progress}
use nosana_node.Task.Groups.{set_all}

pub data BootError : Type 0 where
  -- the loop over `undefined` throws
  not_iterable : BootError
  not_built : BuildError → BootError

-- What the constructor is given.
pub record Draft : Type 0 where
  pub job : String
  pub project : String
  pub definition : Option (List Operation)

abbrev pub is_waiting : Status → Bool
is_waiting waiting_for_job_definition = true
is_waiting _ = false

-- Whether `init` makes a flow.
abbrev pub wants_flow : Option Flow → Bool
wants_flow none = true
wants_flow (some flow) = is_waiting flow.state.status

-- The manager that `build` leaves, with the flows of `init`, and each operation marked as `init`.
abbrev pub built_manager : {S : Type 0} → Draft → List Operation → Built S → Flows → Manager
built_manager draft operations built flows = set_all (Map.keys built.op_map) Progress.init (record {
  job = draft.job;
  operations = operations;
  op_map = built.op_map;
  plan = built.plan;
  dependency_map = built.dependency_map;
  flows = flows;
  main_abort = none;
  aborts = [];
  current_group = none;
  released_by = [];
  launched = [];
  promises = [];
  locks = [];
  statuses = [];
  status = Status.init;
})

module _ {S : Type 0} (set_host : String → S → Result BuildError S) (set_defaults : S → S) where
  -- `init`, of a manager that has operations. A flow that is there is kept.
  unfoldable pub init_flow : Draft → List Operation → ℕ → S → Flows → Flows × S
  init_flow draft operations now store flows =
      if wants_flow (Map.get draft.job flows)
      then (
        Map.set draft.job
            (create_initial_flow draft.project operations operations Status.init now none) flows,
        set_defaults store,
      )
      else (flows, store)

  -- The constructor and `bootstrap`. A manager without a definition has no operations, so that
  -- `build` throws before `init` looks for the flow; past `build` there is a definition.
  unfoldable pub bootstrap : Draft → ℕ → S → Flows → Result BootError (Manager × S)
  bootstrap draft now store flows = elim draft.definition [
    | none ↦ err not_iterable
    | some operations ↦ elim (build set_host operations store) [
      | err e ↦ err (not_built e)
      | ok built ↦
          let begun = init_flow draft operations now built.store flows in
          ok (built_manager draft operations built begun.0, begun.1)
    ]
  ]

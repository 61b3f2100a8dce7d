-- ===== src/Jobs.antt =====
-- NodeManager/node/job: how a job's definition is fetched and checked, how its task is started and
-- what result it gives (jobExternalUtil.ts and jobHandler.ts). JobRegistry.ts is in Jobs/Registry.
-- An error is its message. What happens between two `await`s of a job changes the flow of that job
-- only.
mod Registry
mod Fetching
mod Starting
mod Resuming
mod Samples
use mathlib.Core.Option
use Prim.Native.String.{◌++◌ as concat}
use nosana_node.Base.{
  String, str_eq, ℕ, suc, ◌+◌, Bool, true, false, ◌||◌, Option, none, some, List, [], ◌∷◌, ◌++◌,
  if◌then◌else◌, or_else, is_some, Result, ok, err, add_member, remove,
}
use nosana_node.Base.Map
use nosana_node.Literals.{is_empty_text}
use nosana_node.Operation.{Operation}
use nosana_node.Repository.{
  Status, failed, waiting_for_job_definition, waiting_for_result, validation_error, init_error,
  logistics_error, FlowState, Flow, Flows, create_initial_flow, update_flow_state,
  update_flow_state_error,
}

-- `send` and `receive` are the types under `logistics`, where they are there.
pub record JobDefinition : Type 0 where
  pub ops : List Operation
  pub send : Option String
  pub receive : Option String

-- What the job's services answer: IPFS on each attempt, the strategies of a type, and the SDK's
-- validation, with the errors that it finds.
pub record Services : Type 0 where
  pub retrieve : ℕ → String → Result String JobDefinition
  pub load : String → String → Result String JobDefinition
  -- A delivery that is rejected gives what `updateflowStateError` records of the error (its message,
  -- if it is an `Error`), and the error itself, as a list of errors holds it.
  pub deliver : String → String → FlowState → Status → Result {0, 0} (String × String) Unit
  pub validation : JobDefinition → Option String

-- Milliseconds.
abbrev pub retry_delays : List ℕ
retry_delays = 500 ∷ 1000 ∷ 18500 ∷ []

-- A type that is there and not empty.
abbrev pub given_type : Option String → Option String
given_type none = none
given_type (some kind) = if is_empty_text kind then none else some kind

-- `selectStrategy` returns.
abbrev pub is_strategy : String → Bool
is_strategy kind = str_eq kind "api-listen" || str_eq kind "api"

abbrev pub unsupported : String → String
unsupported kind = concat "Unsupported strategy: " kind

abbrev pub no_flow : String
no_flow = "Failed to find flow state."

-- `updateflowStateError` on the flows; where it throws they are as they were.
abbrev pub report {ℓ} : {A : Type ℓ} → Flows → Option Flows → A → Flows × Result String A
report flows none v = (flows, err no_flow)
report flows (some changed) v = (changed, ok v)

module _ (services : Services) where
  -- What is left of `retrieveJobDefinitionWithRetry` at an attempt, with the delays that are not
  -- used up, and the time that it sleeps.
  unfoldable pub retrieve_from : List ℕ → ℕ → String → ℕ × Result String JobDefinition
  retrieve_from [] attempts hash = (0, services.retrieve attempts hash)
  retrieve_from (delay ∷ delays) attempts hash =
      let rest = retrieve_from delays (suc attempts) hash in
      elim (services.retrieve attempts hash) [
        | ok definition ↦ (0, ok definition)
        | err e ↦ (delay + rest.0, rest.1)
      ]

  unfoldable pub retrieve_with_retry : String → ℕ × Result String JobDefinition
  retrieve_with_retry = retrieve_from retry_delays 0

  -- The strategy's definition, or `null` and the error in the flow.
  unfoldable pub load_definition :
      String → String → Flows → Flows × Result String (Option JobDefinition)
  load_definition id kind flows = elim (services.load kind id) [
    | ok loaded ↦ (flows, ok (some loaded))
    | err e ↦ report flows (update_flow_state_error id (some logistics_error) e flows) none
  ]

  unfoldable pub resolve_job_definition :
      String → String → String → ℕ → Flows → Flows × Result String (Option JobDefinition)
  resolve_job_definition id hash project now flows = elim (retrieve_with_retry hash).1 [
    | err e ↦ (flows, err e)
    | ok definition ↦ elim (given_type definition.send) [
      | none ↦ (flows, ok (some definition))
      | some kind ↦
          if is_strategy kind
          then load_definition id kind (
              Map.set id
                (create_initial_flow project definition.ops [] waiting_for_job_definition now none)
                flows)
          else (flows, err (unsupported kind))
    ]
  ]

  unfoldable pub push_error : String → FlowState → FlowState
  push_error e state = record state { errors = some (or_else state.errors [] ++ (e ∷ [])) }

  -- `blankResult`
  unfoldable pub blank_result : FlowState → FlowState
  blank_result state = record state {
    op_states = [];
    secrets = [];
    errors = some (or_else state.errors []);
  }

  -- A failed delivery. `blankResult.errors` is the array of the flow's state where it has one, so
  -- that both errors are pushed to both.
  unfoldable pub fail_delivery :
      String → String × String → FlowState → Flows → Flows × Result String (Option FlowState)
  fail_delivery id (recorded, error) state flows =
      let pushed = update_flow_state_error id none recorded flows in
      if is_some state.errors
      then report flows (Option.map (update_flow_state id (push_error error)) pushed)
          (some (push_error error (push_error recorded (blank_result state))))
      else report flows pushed (some (push_error error (blank_result state)))

  unfoldable pub deliver_result :
      String → String → FlowState → Flows → Flows × Result String (Option FlowState)
  deliver_result id kind state flows =
      let mark = λ (s : FlowState). record s { status = waiting_for_result } in
      let waiting = update_flow_state id mark flows in
      elim (services.deliver kind id (mark state) state.status) [
        | ok done ↦ (waiting, ok (some (blank_result state)))
        | err e ↦ fail_delivery id e state waiting
      ]

  -- `resolveResult`, with `none` for the empty state that is given where there is no flow.
  unfoldable pub resolve_result : String → String → Flows → Flows × Result String (Option FlowState)
  resolve_result id hash flows = elim (retrieve_with_retry hash).1 [
    | err e ↦ (flows, err e)
    | ok definition ↦ elim (Map.get id flows) [
      | none ↦ (flows, ok none)
      | some flow ↦ elim (given_type definition.receive) [
        | none ↦ (flows, ok (some flow.state))
        | some kind ↦
            if is_strategy kind
            then deliver_result id kind flow.state flows
            else (flows, err (unsupported kind))
      ]
    ]
  ]

  -- `JobExternalUtil.validate`
  unfoldable pub validate : String → ℕ → JobDefinition → Flows → Flows × Result String Bool
  validate id now definition flows = elim (services.validation definition) [
    | none ↦ (flows, ok true)
    | some e ↦
        let ended =
          update_flow_state id (λ s. record s { end_time = some now; status = failed }) flows in
        report ended (update_flow_state_error id (some validation_error) e ended) false
  ]

-- What a start reads and writes: the flows, and the jobs with a task in the `TaskManagerRegistry`.
pub record JobState : Type 0 where
  pub flows : Flows
  pub tasks : List String

module _ (services : Services) (bootstrap : String → Flows → Result String Flows) where
  -- `register` and `bootstrap`, with `refuse` for the `catch`. `bootstrap` is the constructor of
  -- the task manager and its method of that name.
  unfoldable pub start_task :
      String
      → (String → Flows → Flows × Result String Bool)
      → JobState
      → JobState × Result String Bool
  start_task id refuse s = elim (bootstrap id s.flows) [
    | ok flows ↦ (record { flows = flows; tasks = add_member id s.tasks }, ok true)
    | err e ↦
        let refused = refuse e s.flows in
        elim refused.1 [
          | ok v ↦ (record { flows = refused.0; tasks = remove id s.tasks }, ok v)
          | err thrown ↦ (record { flows = refused.0; tasks = add_member id s.tasks }, err thrown)
        ]
  ]

  -- The `catch` of a job that is new: its flow, with the error.
  unfoldable pub refuse_new :
      String → String → ℕ → JobDefinition → String → Flows → Flows × Result String Bool
  refuse_new id project now definition e flows = (
    Map.set id (create_initial_flow project definition.ops [] init_error now (some e)) flows,
    ok false,
  )

  -- The `catch` of a job that has a flow.
  unfoldable pub refuse_known : String → String → Flows → Flows × Result String Bool
  refuse_known id e flows =
      report flows (update_flow_state_error id (some init_error) e flows) false

  -- The rest of `start`, from a definition.
  unfoldable pub start_definition :
      String → String → ℕ → JobDefinition → JobState → JobState × Result String Bool
  start_definition id project now definition s =
      let checked = validate services id now definition s.flows in
      let s' = record s { flows = checked.0 } in
      elim checked.1 [
        | err e ↦ (s', err e)
        | ok false ↦ (s', ok false)
        | ok true ↦ start_task id (refuse_new id project now definition) s'
      ]

  -- `start`, but for the subscription to the account. `aborted` is whether the abort comes before
  -- the definition is asked for: that an abort in the course of it may leave the waiting flow set
  -- is left out.
  unfoldable pub start :
      String → String → String → ℕ → Bool → JobState → JobState × Result String Bool
  start id hash project now aborted s = elim (Map.get id s.flows) [
    | some flow ↦ start_task id (refuse_known id) s
    | none ↦
        if aborted
        then (s, ok false)
        else let fetched = resolve_job_definition services id hash project now s.flows in
          let s' = record s { flows = fetched.0 } in
          elim fetched.1 [
            | err e ↦ (s', err e)
            | ok none ↦ (s', ok false)
            | ok (some definition) ↦ start_definition id project now definition s'
          ]
  ]

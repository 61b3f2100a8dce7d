-- ===== src/Jobs/Starting.antt =====
-- How a start and the result of a job end.
use nosana_node.Base.{
  String, ℕ, Bool, true, false, ◌≡◌, refl, none, some, [], ◌∷◌, ◌++◌, if◌then◌else◌, or_else,
  is_some, Result, ok, err, contains, arith, Option-cases, Result-cases, Bool-cases, inl, inr,
  append_assoc, contains-add_member, contains-remove, eq_refl,
}
use nosana_node.Base.Map
use nosana_node.Repository.{
  FlowState, Flow, Flows, update_flow_state, update_flow_state_error, waiting_for_result, failed,
}
use nosana_node.Jobs.{
  JobDefinition, Services, JobState, given_type, is_strategy, no_flow, retrieve_with_retry,
  push_error, blank_result, fail_delivery, deliver_result, resolve_result, resolve_job_definition,
  validate, start_task, start_definition, start, refuse_new, refuse_known,
}

modify_absent {ℓ} :
    {V : Type ℓ} (k : String) (f : V → V) (m : Map.Map V)
    → Map.get k m ≡ none
    → Map.modify k f m ≡ m
unfolding Map.get Map.modify
modify_absent k f [] h = refl
modify_absent k f ((j, w) ∷ m) h = ground (arith, modify_absent k f m)

module _ (services : Services) (bootstrap : String → Flows → Result String Flows) where
  resolve_job_definition_plain :
      (id hash project : String) (now : ℕ) (flows : Flows) (definition : JobDefinition)
      → (retrieve_with_retry services hash).1 ≡ ok definition
      → given_type definition.send ≡ none
      → resolve_job_definition services id hash project now flows ≡ (flows, ok (some definition))
  unfolding resolve_job_definition
  resolve_job_definition_plain id hash project now flows definition fetched given =
      rw (resolve_job_definition, fetched, given) refl

  validate_absent :
      (id : String) (now : ℕ) (definition : JobDefinition) (e : String) (flows : Flows)
      → services.validation definition ≡ some e
      → Map.get id flows ≡ none
      → validate services id now definition flows ≡ (flows, err no_flow)
  unfolding validate update_flow_state update_flow_state_error
  validate_absent id now definition e flows invalid absent = ground (
    arith,
    invalid,
    absent,
    modify_absent id
        (λ flow. record flow { state = record flow.state { end_time = some now; status = failed } })
        flows absent,
  )

  -- A start of a job that has no flow throws and leaves the state as it is, if its definition is
  -- fetched before an abort, names no strategy to be loaded by, and does not validate.
  pub start_unrecorded :
      (id hash project : String) (now : ℕ) (s : JobState) (definition : JobDefinition) (e : String)
      → Map.get id s.flows ≡ none
      → (retrieve_with_retry services hash).1 ≡ ok definition
      → given_type definition.send ≡ none
      → services.validation definition ≡ some e
      → start services bootstrap id hash project now false s ≡ (s, err no_flow)
  unfolding start start_definition
  start_unrecorded id hash project now s definition e absent fetched given invalid = ground (
    arith,
    absent,
    resolve_job_definition_plain id hash project now s.flows definition fetched given,
    validate_absent id now definition e s.flows invalid absent,
  )

  start_task-tasks :
      (id : String) (refuse : String → Flows → Flows × Result String Bool) (s : JobState) (b : Bool)
      → ((e : String) (flows : Flows) (v : Bool) → (refuse e flows).1 ≡ ok v → v ≡ false)
      → (start_task services bootstrap id refuse s).1 ≡ ok b
      → contains id (start_task services bootstrap id refuse s).0.tasks ≡ b
  unfolding start_task
  start_task-tasks id refuse s b refused h = elim (Result-cases (bootstrap id s.flows)) [
    | inr (flows, d) ↦ ground (arith, d, h, contains-add_member id id s.tasks, eq_refl id)
    | inl (e, d) ↦ elim (Result-cases (refuse e s.flows).1) [
      | inl (x, r) ↦ ground (arith, d, h, r)
      | inr (v, r) ↦
          ground (arith, d, h, r, refused e s.flows v r, contains-remove id id s.tasks, eq_refl id)
    ]
  ]

  refuse_known-false :
      (id e : String) (flows : Flows) (v : Bool)
      → (refuse_known services bootstrap id e flows).1 ≡ ok v
      → v ≡ false
  unfolding refuse_known update_flow_state_error
  refuse_known-false id e flows v h = elim (Option-cases (Map.get id flows)) [
    | inl d ↦ ground (arith, d, h)
    | inr (flow, d) ↦ ground (arith, d, h)
  ]

  refuse_new-false :
      (id project : String) (now : ℕ) (definition : JobDefinition) (e : String) (flows : Flows)
      (v : Bool)
      → (refuse_new services bootstrap id project now definition e flows).1 ≡ ok v
      → v ≡ false
  unfolding refuse_new
  refuse_new-false id project now definition e flows v h = ground (arith, h)

  start_definition-tasks :
      (id project : String) (now : ℕ) (definition : JobDefinition) (s : JobState) (b : Bool)
      → contains id s.tasks ≡ false
      → (start_definition services bootstrap id project now definition s).1 ≡ ok b
      → contains id (start_definition services bootstrap id project now definition s).0.tasks ≡ b
  unfolding start_definition
  start_definition-tasks id project now definition s b free h =
      let checked = validate services id now definition s.flows in
      let refuse = refuse_new services bootstrap id project now definition in
      elim (Result-cases checked.1) [
        | inl (e, d) ↦ ground (arith, d, h)
        | inr (false, d) ↦ ground (arith, d, h, free)
        | inr (true, d) ↦
            rw (start_definition, d)
              (start_task-tasks id refuse (record s { flows = checked.0 }) b
                (refuse_new-false id project now definition) (rw (start_definition, d) at h))
      ]

  -- If a job has no task and its start returns, the job has a task exactly if the answer is true.
  pub start-tasks :
      (id hash project : String) (now : ℕ) (aborted : Bool) (s : JobState) (b : Bool)
      → contains id s.tasks ≡ false
      → (start services bootstrap id hash project now aborted s).1 ≡ ok b
      → contains id (start services bootstrap id hash project now aborted s).0.tasks ≡ b
  unfolding start
  start-tasks id hash project now aborted s b free h =
      let fetched = resolve_job_definition services id hash project now s.flows in
      let s' = record s { flows = fetched.0 } in
      elim (Option-cases (Map.get id s.flows)) [
        | inr (flow, d) ↦
            rw (start, d)
              (start_task-tasks id (refuse_known services bootstrap id) s b (refuse_known-false id)
                (rw (start, d) at h))
        | inl d ↦ elim (Bool-cases aborted) [
          | inl a ↦ ground (arith, d, a, h, free)
          | inr a ↦ elim (Result-cases fetched.1) [
            | inl (e, r) ↦ ground (arith, d, a, r, h)
            | inr (none, r) ↦ ground (arith, d, a, r, h, free)
            | inr (some definition, r) ↦
                rw (start, d, a, r)
                  (start_definition-tasks id project now definition s' b free
                    (rw (start, d, a, r) at h))
          ]
        ]
      ]

  fail_delivery_result :
      (id recorded error : String) (state : FlowState) (flows : Flows)
      → Map.has id flows ≡ true
      → (fail_delivery services id (recorded, error) state flows).1
        ≡ ok (
            some (record state {
              op_states = [];
              secrets = [];
              errors = some (
                  or_else state.errors []
                  ++ (if is_some state.errors then recorded ∷ error ∷ [] else error ∷ []));
            }))
  unfolding fail_delivery push_error blank_result update_flow_state_error
  fail_delivery_result id recorded error state flows there = elim (Option-cases state.errors) [
    | inl d ↦ rw (there, d) refl
    | inr (errors, d) ↦ rw (there, d, append_assoc errors (recorded ∷ []) (error ∷ [])) refl
  ]

  -- Where a definition asks for its result to be delivered, by a strategy that there is, and the
  -- delivery fails, the result of the job has the status of its flow, no operations and no secrets,
  -- and after the errors of the flow the error itself; where the flow had a list of errors, what the
  -- flow records of the error stands before it in the result too.
  pub resolve_result_undelivered :
      (id hash kind recorded error : String) (flows : Flows) (definition : JobDefinition)
      (flow : Flow)
      → (retrieve_with_retry services hash).1 ≡ ok definition
      → Map.get id flows ≡ some flow
      → given_type definition.receive ≡ some kind
      → is_strategy kind ≡ true
      → services.deliver kind id
          (record flow.state { status = waiting_for_result })
          flow.state.status
        ≡ err (recorded, error)
      → (resolve_result services id hash flows).1
        ≡ ok (
            some (record flow.state {
              op_states = [];
              secrets = [];
              errors = some (
                  or_else flow.state.errors []
                  ++ (if is_some flow.state.errors then recorded ∷ error ∷ [] else error ∷ []));
            }))
  unfolding resolve_result deliver_result update_flow_state
  resolve_result_undelivered id hash kind recorded error flows definition flow fetched found given
        known failing =
      let mark =
        λ (f : Flow). record f { state = record f.state { status = waiting_for_result } } in
      let waiting = Map.modify id mark flows in
      rw (resolve_result, fetched, found, given, known, deliver_result, failing)
        (fail_delivery_result id recorded error flow.state waiting
          (ground (arith, Map.has-modify id id mark flows, found)))

-- ===== src/Task/Endpoints.antt =====
-- The endpoints of an operation once it has been stopped. About the end of
-- operations/stopTaskManagerOperation.ts.
use mathlib.Core.Option
use nosana_node.Base.{
  String, str_eq, eq_refl, ℕ, ◌≡◌, refl, sym, ap, ◌∙◌, inl, inr, true, false, none, some, [], ◌∷◌,
  arith, if◌then◌else◌, remove, Bool-cases, Option-cases,
}
use nosana_node.Base.Map
use nosana_node.Base.Map.{Map}
use nosana_node.Operation.{find_index}
use nosana_node.Repository.{
  Flows, FlowState, OpState, endpoints, EndpointSecret, offline, get_op_state, update_op_state,
  update_flow_state, update_flow_state_secret,
}
use nosana_node.Repository.{modify_at}
use nosana_node.Task.{
  StopReason, Progress, get_status, Manager, finish_stop, take_offline, has_endpoint,
  drop_endpoints, job_secrets, has_ended, change_op,
}

-- An endpoint of the operation is offline, and any other is as it was.
abbrev pub offline_of : String → EndpointSecret → EndpointSecret
offline_of id v = if str_eq v.op_id id then record v { status = offline } else v

get-take_offline :
    (id expose_id : String) (secrets : Map EndpointSecret)
    → Map.get expose_id (take_offline id secrets)
      ≡ Option.map (offline_of id) (Map.get expose_id secrets)
unfolding take_offline Map.get
get-take_offline id expose_id [] = refl
get-take_offline id expose_id ((k, v) ∷ secrets) =
    ground (arith, get-take_offline id expose_id secrets)

get-has_endpoint :
    (id expose_id : String) (secrets : Map EndpointSecret)
    → has_endpoint id secrets ≡ false
    → Option.map (offline_of id) (Map.get expose_id secrets) ≡ Map.get expose_id secrets
unfolding Map.get
get-has_endpoint id expose_id [] h = refl
get-has_endpoint id expose_id ((k, v) ∷ secrets) h =
    ground (arith, get-has_endpoint id expose_id secrets)

job_secrets-set :
    (job : String) (secrets : Map EndpointSecret) (flows : Flows)
    → Map.has job flows ≡ true
    → job_secrets job (update_flow_state_secret job job (endpoints secrets) flows) ≡ secrets
unfolding job_secrets update_flow_state_secret update_flow_state
job_secrets-set job secrets flows h =
    let write =
      λ (s : FlowState). record s { secrets = Map.set job (endpoints secrets) s.secrets } in
    let changed = Map.get-modify job job (λ flow. record flow { state = write flow.state }) flows in
    elim (Option-cases (Map.get job flows)) [
      | inl gone ↦ absurd (ground arith)
      | inr (flow, there) ↦ ground (
        arith,
        there,
        changed,
        eq_refl job,
        Map.get-set_self job (endpoints secrets) flow.state.secrets,
      )
    ]

has_endpoint-has :
    (id job : String) (flows : Flows)
    → has_endpoint id (job_secrets job flows) ≡ true
    → Map.has job flows ≡ true
unfolding job_secrets
has_endpoint-has id job flows h = ground arith

drop_endpoints-get :
    (id expose_id : String) (m : Manager)
    → Map.get expose_id (job_secrets m.job (drop_endpoints id m).flows)
      ≡ Option.map (offline_of id) (Map.get expose_id (job_secrets m.job m.flows))
unfolding drop_endpoints
drop_endpoints-get id expose_id m =
    elim (Bool-cases (has_endpoint id (job_secrets m.job m.flows))) [
      | inl some_of ↦
          rw
            (
              some_of,
              drop_endpoints,
              job_secrets-set m.job (take_offline id (job_secrets m.job m.flows)) m.flows
                  (has_endpoint-has id m.job m.flows some_of),
            )
            (get-take_offline id expose_id (job_secrets m.job m.flows))
      | inr none_of ↦
          rw (none_of, drop_endpoints)
            (sym (get-has_endpoint id expose_id (job_secrets m.job m.flows) none_of))
    ]

job_secrets-change_op :
    (i : ℕ) (assign : OpState → OpState) (m : Manager)
    → job_secrets m.job (change_op i assign m).flows ≡ job_secrets m.job m.flows
unfolding job_secrets update_op_state update_flow_state
job_secrets-change_op i assign m =
    let write = λ (s : FlowState). record s { op_states = modify_at i assign s.op_states } in
    let changed =
      Map.get-modify m.job m.job (λ flow. record flow { state = write flow.state }) m.flows in
    elim (Option-cases (Map.get m.job m.flows)) [
      | inl gone ↦ ground (arith, gone, changed, eq_refl m.job)
      | inr (flow, there) ↦ ground (arith, there, changed, eq_refl m.job)
    ]

drop_endpoints-locks : (id : String) (m : Manager) → (drop_endpoints id m).locks ≡ m.locks
unfolding drop_endpoints
drop_endpoints-locks id m = ground arith

drop_endpoints-job : (id : String) (m : Manager) → (drop_endpoints id m).job ≡ m.job
unfolding drop_endpoints
drop_endpoints-job id m = ground arith

-- When the stop of an operation that the job lists has finished, the endpoints of that operation
-- are offline and all other endpoints are as they were, none added or lost; and the operation may
-- be controlled again.
pub finish_stop-endpoints :
    (id expose_id : String) (now i : ℕ) (m : Manager)
    → find_index id m.operations ≡ some i
    → (Map.get expose_id (job_secrets m.job (finish_stop id now m).flows)
        ≡ Option.map (offline_of id) (Map.get expose_id (job_secrets m.job m.flows)))
      × (Map.get id (finish_stop id now m).locks ≡ none)
unfolding finish_stop
finish_stop-endpoints id expose_id now i m h =
    elim (Bool-cases (has_ended (get_op_state m.job i m.flows))) [
      | inl ended ↦ (
        rw (h, ended, finish_stop) (drop_endpoints-get id expose_id _),
        rw (h, ended, finish_stop)
            (ap (Map.get id) (drop_endpoints-locks id _) ∙ Map.get-delete_self id m.locks),
      )
      | inr runs ↦ (
        rw (h, runs, finish_stop)
            (drop_endpoints-get id expose_id _
              ∙ ap (λ (s : Map EndpointSecret). Option.map (offline_of id) (Map.get expose_id s))
                  (job_secrets-change_op i
                    (λ s. record s { status = get_status StopReason.stopped; end_time = some now })
                    (record m {
                      promises = remove id m.promises;
                      locks = Map.delete id m.locks;
                      statuses = Map.set id Progress.stopped m.statuses;
                    }))),
        rw (h, runs, finish_stop)
            (ap (Map.get id) (drop_endpoints-locks id _) ∙ Map.get-delete_self id m.locks),
      )
    ]

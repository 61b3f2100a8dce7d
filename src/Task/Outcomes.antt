-- ===== src/Task/Outcomes.antt =====
-- How a run ends: the status of an operation that was told to stop. About the listeners of
-- operations/runTaskManagerOperation.ts, and `getStatus` of TaskManager.ts.
use mathlib.Core.Option
use nosana_node.Base.{
  String, eq_refl, ℕ, ◌≡◌, refl, ap, ◌∙◌, inl, inr, false, Option, none, some, [], ◌∷◌, ◌++◌, arith,
  or_else, Bool-cases, Option-cases, ok,
}
use nosana_node.Base.Map
use nosana_node.Base.Map.{Map}
use nosana_node.Repository.{
  Status, OpState, OpError, get_op_state, update_op_state_error, set_op_state_diagnostics_reason,
}
use nosana_node.Repository.{reason_of}
use nosana_node.Repository.OpStates.{get_op_state-update_op_state}
use nosana_node.Task.{
  StopReason, expired, Progress, Manager, signal, stop_operation, get_status, change_op, is_stopped,
  set_status,
}
use nosana_node.Task.Runs.{
  on_exit, on_error, on_timeout, on_main_abort, signal_of, exit_status, error_status,
  has_flow_reason,
}

-- The status of the operation at an index of the job.
abbrev pub status_at : ℕ → Manager → Option Status
status_at i m = Option.map (λ (s : OpState). s.status) (get_op_state m.job i m.flows)

change_op-status :
    (i : ℕ) (assign : OpState → OpState) (new : Status) (m : Manager)
    → ((s : OpState) → (assign s).status ≡ new)
    → status_at i (change_op i assign m) ≡ Option.map (λ (s : Status). new) (status_at i m)
change_op-status i assign new m writes = elim (Option-cases (get_op_state m.job i m.flows)) [
  | inl gone ↦
      ground
        (arith, gone, get_op_state-update_op_state m.job m.job i i assign m.flows, eq_refl m.job)
  | inr (s, there) ↦ ground (
    arith,
    there,
    writes s,
    get_op_state-update_op_state m.job m.job i i assign m.flows,
    eq_refl m.job,
  )
]

on_exit-status :
    (now : ℕ) (id : String) (i code : ℕ) (m : Manager)
    → status_at i (on_exit now id i code m)
      ≡ Option.map (λ (s : Status). exit_status (signal_of id m) code) (status_at i m)
unfolding on_exit
on_exit-status now id i code m =
    change_op-status i _ (exit_status (signal_of id m) code) (set_status id Progress.finished m)
      (λ s. refl)

change_op-keeps :
    (i : ℕ) (assign : OpState → OpState) (m : Manager)
    → ((s : OpState) → (assign s).status ≡ s.status)
    → status_at i (change_op i assign m) ≡ status_at i m
change_op-keeps i assign m keeps = elim (Option-cases (get_op_state m.job i m.flows)) [
  | inl gone ↦
      ground
        (arith, gone, get_op_state-update_op_state m.job m.job i i assign m.flows, eq_refl m.job)
  | inr (s, there) ↦ ground (
    arith,
    there,
    keeps s,
    get_op_state-update_op_state m.job m.job i i assign m.flows,
    eq_refl m.job,
  )
]

on_error-status :
    (now : ℕ) (id : String) (i : ℕ) (error : OpError) (m : Manager)
    → status_at i (on_error now id i error m)
      ≡ Option.map (λ (s : Status). error_status (signal_of id m)) (status_at i m)
unfolding on_error update_op_state_error
on_error-status now id i error m = elim (Option-cases (signal_of id m)) [
  | inl e ↦
      rw (e, on_error)
        (change_op-status i _ Status.failed
            (change_op i (λ s. record s { errors = some (or_else s.errors [] ++ (error ∷ [])) })
              (set_status id Progress.failed m))
            (λ s. ap error_status e)
          ∙ ap (Option.map (λ (s : Status). Status.failed))
              (change_op-keeps i _ (set_status id Progress.failed m) (λ s. refl)))
  | inr (reason, e) ↦
      rw (e, on_error)
        (change_op-status i _ (get_status reason) (set_status id Progress.stopped m)
          (λ s. ap error_status e))
]

stop_operation-signal :
    (group id : String) (m next : Manager)
    → stop_operation group id m ≡ ok next
    → is_stopped (Map.get id m.statuses) ≡ false
    → Map.get id m.aborts ≡ some none
    → (signal_of id next ≡ some StopReason.stopped) × ((i : ℕ) → status_at i next ≡ status_at i m)
unfolding stop_operation
stop_operation-signal group id m next h s a = (
  ground (arith, Map.get-modify id id (signal StopReason.stopped) m.aborts, eq_refl id),
  λ i. ground arith,
)

-- An operation that is told to stop while it runs ends as stopped, whether its container then
-- exits, with any code, or fails.
pub stop_operation-ends :
    (group id : String) (now i code : ℕ) (error : OpError) (m next : Manager)
    → stop_operation group id m ≡ ok next
    → is_stopped (Map.get id m.statuses) ≡ false
    → Map.get id m.aborts ≡ some none
    → (status_at i (on_exit now id i code next)
        ≡ Option.map (λ (s : Status). Status.stopped) (status_at i m))
      × (status_at i (on_error now id i error next)
          ≡ Option.map (λ (s : Status). Status.stopped) (status_at i m))
unfolding get_status
stop_operation-ends group id now i code error m next h s a =
    let told = stop_operation-signal group id m next h s a in
    (
      rw (on_exit-status now id i code next, told.0, told.1 i, get_status) refl,
      rw (on_error-status now id i error next, told.0, told.1 i, get_status) refl,
    )

-- What a signal leaves for the end of a run: the reason that was given first.
abbrev pub reason_after : Option StopReason → StopReason → StopReason
reason_after first reason = or_else first reason

signal_of-modify :
    (reason : StopReason) (id : String) (m next : Manager) (first : Option StopReason)
    → Map.get id m.aborts ≡ some first
    → next.aborts ≡ Map.modify id (signal reason) m.aborts
    → signal_of id next ≡ some (reason_after first reason)
signal_of-modify reason id m next none a h =
    rw (h, Map.get-modify id id (signal reason) m.aborts, eq_refl id, a) refl
signal_of-modify reason id m next (some first) a h =
    rw (h, Map.get-modify id id (signal reason) m.aborts, eq_refl id, a) refl

on_main_abort-signal :
    (text : StopReason → String) (reason : StopReason) (id : String) (i : ℕ) (m : Manager)
    (first : Option StopReason)
    → Map.get id m.aborts ≡ some first
    → (signal_of id (on_main_abort text reason id i m) ≡ some (reason_after first reason))
      × (status_at i (on_main_abort text reason id i m) ≡ status_at i m)
unfolding on_main_abort set_op_state_diagnostics_reason
on_main_abort-signal text reason id i m first a = elim (Bool-cases (has_flow_reason reason)) [
  | inl does ↦ (
    signal_of-modify reason id m (on_main_abort text reason id i m) first a
        (rw (does, on_main_abort) refl),
    rw (does, on_main_abort) (change_op-keeps i _ m (λ s. refl)),
  )
  | inr not_so ↦ (
    signal_of-modify reason id m (on_main_abort text reason id i m) first a
        (rw (not_so, on_main_abort) refl),
    rw (not_so, on_main_abort) refl,
  )
]

-- When the flow is stopped, an operation that runs ends with the status of the first reason that
-- it was given: its own, if it had been stopped or timed out before, and else the flow's. Neither
-- the exit code nor the diagnostics change that.
pub on_main_abort-ends :
    (text : StopReason → String) (reason : StopReason) (id : String) (now i code : ℕ)
    (error : OpError) (m : Manager) (first : Option StopReason)
    → Map.get id m.aborts ≡ some first
    → (status_at i (on_exit now id i code (on_main_abort text reason id i m))
        ≡ Option.map (λ (s : Status). get_status (reason_after first reason)) (status_at i m))
      × (status_at i (on_error now id i error (on_main_abort text reason id i m))
          ≡ Option.map (λ (s : Status). get_status (reason_after first reason)) (status_at i m))
on_main_abort-ends text reason id now i code error m first a =
    let told = on_main_abort-signal text reason id i m first a in
    (
      rw (on_exit-status now id i code (on_main_abort text reason id i m), told.0, told.1) refl,
      rw (on_error-status now id i error (on_main_abort text reason id i m), told.0, told.1) refl,
    )

-- An operation that is killed at its timeout, and was not told to stop before, ends as a success,
-- whatever its exit code.
pub on_timeout-ends :
    (text id : String) (now i code : ℕ) (error : OpError) (m : Manager)
    → Map.get id m.aborts ≡ some none
    → (status_at i (on_exit now id i code (on_timeout id i text m))
        ≡ Option.map (λ (s : Status). Status.success) (status_at i m))
      × (status_at i (on_error now id i error (on_timeout id i text m))
          ≡ Option.map (λ (s : Status). Status.success) (status_at i m))
unfolding on_timeout get_status set_op_state_diagnostics_reason
on_timeout-ends text id now i code error m a =
    let told = signal_of-modify expired id m (on_timeout id i text m) none a refl in
    let same =
      change_op-keeps i
        (λ s. record s { reason = some (record (reason_of s) { reason = some text }) }) m
        (λ s. refl) in
    (
      rw (on_exit-status now id i code (on_timeout id i text m), told)
          (ap (Option.map (λ (s : Status). Status.success)) same),
      rw (on_error-status now id i error (on_timeout id i text m), told)
          (ap (Option.map (λ (s : Status). Status.success)) same),
    )

-- ===== src/Task/Stops.antt =====
-- What the stop of the whole flow does to the operations that have not started. About the loop of
-- operations/stopAllTaskManagerOperations.ts.
use mathlib.Core.Option
use nosana_node.Base.{
  String, eq_refl, ==_iff, ℕ, ◌≡◌, refl, ◌∙◌, inl, inr, Bool, true, false, not, ◌&&◌, ◌||◌, Option,
  none, some, List, [], ◌∷◌, arith, if◌then◌else◌, is_some, Option-cases, ◌==◌, all, any,
}
use nosana_node.Operation.{Operation, find_index}
use nosana_node.Repository.{OpState, get_op_state}
use nosana_node.Repository.OpStates.{get_op_state-update_op_state}
use nosana_node.Task.{StopReason, Progress, Manager, get_status, set_status, change_op}
use nosana_node.Task.Groups.{stop_unstarted, has_started}

-- Whether an operation at the index is among those named; and whether all of them are in the job.
abbrev pub is_index : ℕ → Option ℕ → Bool
is_index i none = false
is_index i (some k) = k == i

abbrev pub names_index : List Operation → ℕ → List String → Bool
names_index ops i ids = any (λ id. is_index i (find_index id ops)) ids

abbrev pub are_listed : List Operation → List String → Bool
are_listed ops ids = all (λ id. is_some (find_index id ops)) ids

-- The state of an operation that is stopped before it has started.
abbrev pub ended_unstarted : ℕ → StopReason → OpState → OpState
ended_unstarted now reason s = record s {
  status = get_status reason;
  end_time = some now;
  exit_code = some 0;
}

abbrev stop_one : ℕ → StopReason → String → ℕ → Manager → Manager
stop_one now reason id index m =
    if has_started (get_op_state m.job index m.flows)
    then m
    else change_op index (ended_unstarted now reason) (set_status id Progress.stopped m)

stop_one-op_state :
    (now : ℕ) (reason : StopReason) (id : String) (index i : ℕ) (m : Manager)
    → get_op_state m.job i (stop_one now reason id index m).flows ≡ (
        if (index == i) && not (has_started (get_op_state m.job i m.flows))
        then Option.map (ended_unstarted now reason) (get_op_state m.job i m.flows)
        else get_op_state m.job i m.flows)
stop_one-op_state now reason id index i m = ground (
  arith,
  get_op_state-update_op_state m.job m.job index i (ended_unstarted now reason) m.flows,
  ==_iff index i,
  eq_refl m.job,
)

stop_one-job :
    (now : ℕ) (reason : StopReason) (id : String) (index : ℕ) (m : Manager)
    → ((stop_one now reason id index m).job ≡ m.job)
      × ((stop_one now reason id index m).operations ≡ m.operations)
stop_one-job now reason id index m = (ground arith, ground arith)

ended_twice :
    (now : ℕ) (reason : StopReason) (b c : Bool) (s : Option OpState)
    → (let once =
          if b && not (has_started s) then Option.map (ended_unstarted now reason) s else s in
        if c && not (has_started once) then Option.map (ended_unstarted now reason) once else once)
      ≡ (if (b || c) && not (has_started s) then Option.map (ended_unstarted now reason) s else s)
ended_twice now reason b c s = ground arith

-- When the flow is stopped, exactly those of the named operations that have not started are ended,
-- with the status of the reason and exit code 0; every other state is left as it is.
pub stop_unstarted-op_state :
    (now : ℕ) (reason : StopReason) (ids : List String) (i : ℕ) (m : Manager)
    → are_listed m.operations ids ≡ true
    → get_op_state m.job i (stop_unstarted now reason ids m).flows ≡ (
        if names_index m.operations i ids && not (has_started (get_op_state m.job i m.flows))
        then Option.map (ended_unstarted now reason) (get_op_state m.job i m.flows)
        else get_op_state m.job i m.flows)
unfolding stop_unstarted
stop_unstarted-op_state now reason [] i m h = refl
stop_unstarted-op_state now reason (id ∷ ids) i m h =
    elim (Option-cases (find_index id m.operations)) [
      | inl gone ↦ absurd (ground arith)
      | inr (index, there) ↦
          let mid = stop_one now reason id index m in
          let same = stop_one-job now reason id index m in
          let rest = stop_unstarted-op_state now reason ids i mid (rw (same.1) (ground arith)) in
          let told = rw (same.0, same.1) at rest in
          rw (there, stop_unstarted)
            (told
              ∙ rw (stop_one-op_state now reason id index i m) (
                  ended_twice now reason (index == i) (names_index m.operations i ids)
                    (get_op_state m.job i m.flows)))
    ]

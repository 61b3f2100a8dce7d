-- ===== src/Repository/OpStates.antt =====
-- What the changes of one operation's state do to the stored flows.
use nosana_node.Base.{
  String, str_eq, ℕ, suc, zero, ◌≡◌, refl, inl, inr, ◌&&◌, Option, some, List, [], ◌∷◌, ◌++◌,
  append-nil, append_assoc, arith, if◌then◌else◌, Option-cases, ◌==◌, get_elem?,
}
use mathlib.Core.Option
use nosana_node.Base.Map
use nosana_node.Base.Map.{Map}
use nosana_node.Base.Window.{keep_last, keep_last-push}
use nosana_node.Repository.{
  OpState, FlowState, Flows, LogLine, modify_at, get_op_state, update_op_state, update_flow_state,
  append_log, max_logs,
}

get_elem?-modify_at {ℓ} :
    {A : Type ℓ} (i j : ℕ) (f : A → A) (xs : List A)
    → get_elem? (modify_at i f xs) j
      ≡ (if i == j then Option.map f (get_elem? xs j) else get_elem? xs j)
get_elem?-modify_at i j f [] = ground arith
get_elem?-modify_at zero zero f (x ∷ xs) = refl
get_elem?-modify_at zero (suc j) f (x ∷ xs) = ground arith
get_elem?-modify_at (suc i) zero f (x ∷ xs) = ground arith
get_elem?-modify_at (suc i) (suc j) f (x ∷ xs) = ground (arith, get_elem?-modify_at i j f xs)

-- `updateOpState` changes the state at its index of its flow, if both are there, and no other.
pub get_op_state-update_op_state :
    (id other : String) (i j : ℕ) (assign : OpState → OpState) (flows : Flows)
    → get_op_state other j (update_op_state id i assign flows) ≡ (
        if str_eq id other && (i == j)
        then Option.map assign (get_op_state other j flows)
        else get_op_state other j flows)
unfolding get_op_state update_op_state update_flow_state
get_op_state-update_op_state id other i j assign flows =
    let states = λ (s : FlowState). record s { op_states = modify_at i assign s.op_states } in
    let changed =
      Map.get-modify id other (λ flow. record flow { state = states flow.state }) flows in
    elim (Option-cases (Map.get other flows)) [
      | inl gone ↦ ground (arith, gone, changed)
      | inr (flow, there) ↦
          ground (arith, there, changed, get_elem?-modify_at i j assign flow.state.op_states)
    ]

-- The logs after a run of `updateOpStateLogs`.
unfoldable pub append_logs : List LogLine → Option (List LogLine) → Option (List LogLine)
append_logs [] logs = logs
append_logs (entry ∷ history) logs = append_logs history (some (append_log entry logs))

append_logs-keep :
    (past history : List LogLine)
    → append_logs history (some (keep_last max_logs past))
      ≡ some (keep_last max_logs (past ++ history))
unfolding append_logs append_log
append_logs-keep past [] = rw append-nil
append_logs-keep past (entry ∷ history) =
    rw (keep_last-push max_logs past entry (omega arith), ← append_assoc past (entry ∷ []) history)
      (append_logs-keep (past ++ (entry ∷ [])) history)

-- However many logs an operation writes, its state holds the last 24999 of them, in order.
pub append_logs_last :
    (history : List LogLine) → append_logs history (some []) ≡ some (keep_last max_logs history)
append_logs_last history = append_logs-keep [] history

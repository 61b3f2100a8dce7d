-- ===== src/Plan/Validation.antt =====
-- Which plans `validateExecutionPlan` accepts.
use nosana_node.Base.{
  String, eq_iff, ◌≡◌, refl, ◌↔◌, inl, inr, true, false, Option, none, some, List, [], ◌∷◌, ◌++◌,
  arith, contains, All, Bool-cases, Option-cases, ok,
}
use nosana_node.Base.Map
use nosana_node.Base.Map.{Map}
use nosana_node.Operation.{Operation, declared_group, depends_on}
use nosana_node.Plan.{
  same_text, dependency_errors, operation_errors, plan_errors, validate_execution_plan,
}

-- The dependency is an operation of the map that declares the same group, or none as `op` does.
pub record IsReachable (op_map : Map Operation) (op : Operation) (dep_id : String) : Type 0 where
  pub dep : Operation
  pub known : Map.get dep_id op_map ≡ some dep
  pub together : declared_group op ≡ declared_group dep

pub record IsWellPlaced (op_map : Map Operation) (op : Operation) : Type 0 where
  pub not_self : contains op.id (depends_on op) ≡ false
  pub reachable : All (IsReachable op_map op) (depends_on op)

same_text_iff : (a b : Option String) → (same_text a b ≡ true) ↔ (a ≡ b)
same_text_iff none none = ((λ _. refl), λ _. refl)
same_text_iff none (some b) = ground arith
same_text_iff (some a) none = ground arith
same_text_iff (some a) (some b) = ground (arith, eq_iff a b)

append-eq-nil {ℓ} : {A : Type ℓ} (xs ys : List A) → xs ++ ys ≡ [] → (xs ≡ []) × (ys ≡ [])
append-eq-nil [] ys h = (refl, h)
append-eq-nil (x ∷ xs) ys h = cc

dependency_errors_sound :
    (op_map : Map Operation) (op : Operation) (deps : List String)
    → dependency_errors op_map op deps ≡ []
    → All (IsReachable op_map op) deps
unfolding dependency_errors
dependency_errors_sound op_map op [] h = tt
dependency_errors_sound op_map op (d ∷ deps) h = elim (Option-cases (Map.get d op_map)) [
  | inl missing ↦ ground arith
  | inr (dep, known) ↦ elim (Bool-cases (same_text (declared_group op) (declared_group dep))) [
    | inl same ↦ (
      record { dep = dep; known = known; together = (same_text_iff _ _).0 same },
      dependency_errors_sound op_map op deps (ground arith),
    )
    | inr other ↦ ground arith
  ]
]

dependency_errors_complete :
    (op_map : Map Operation) (op : Operation) (deps : List String)
    → All (IsReachable op_map op) deps
    → dependency_errors op_map op deps ≡ []
unfolding dependency_errors
dependency_errors_complete op_map op [] h = refl
dependency_errors_complete op_map op (d ∷ deps) (r, h) = ground (
  arith,
  r.known,
  (same_text_iff (declared_group op) (declared_group r.dep)).1 r.together,
  dependency_errors_complete op_map op deps h,
)

operation_errors_iff :
    (op_map : Map Operation) (op : Operation)
    → (operation_errors op_map op ≡ []) ↔ IsWellPlaced op_map op
unfolding operation_errors
operation_errors_iff op_map op = (
  (λ h. record {
    not_self = ground arith;
    reachable = dependency_errors_sound op_map op (depends_on op) (ground arith);
  }),
  (λ w.
      ground (arith, w.not_self, dependency_errors_complete op_map op (depends_on op) w.reachable)),
)

plan_errors_iff :
    (op_map : Map Operation) (ops : List Operation)
    → (plan_errors op_map ops ≡ []) ↔ All (IsWellPlaced op_map) ops
unfolding plan_errors
plan_errors_iff op_map [] = ((λ _. tt), λ _. refl)
plan_errors_iff op_map (op ∷ ops) = (
  (λ h.
      let (now, later) = append-eq-nil (operation_errors op_map op) _ h in
      ((operation_errors_iff op_map op).0 now, (plan_errors_iff op_map ops).0 later)),
  (λ h. rw ((operation_errors_iff op_map op).1 h.0) ((plan_errors_iff op_map ops).1 h.1)),
)

-- `validateExecutionPlan` returns exactly when no operation depends on itself and every dependency
-- is an operation of the job that declares the same group; otherwise it throws.
pub validate_execution_plan_iff :
    (op_map : Map Operation) (ops : List Operation)
    → (validate_execution_plan op_map ops ≡ ok tt) ↔ All (IsWellPlaced op_map) ops
unfolding validate_execution_plan
validate_execution_plan_iff op_map ops = (
  (λ h. (plan_errors_iff op_map ops).0 (ground arith)),
  (λ w. rw ((plan_errors_iff op_map ops).1 w)),
)

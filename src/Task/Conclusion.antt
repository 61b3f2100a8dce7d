-- ===== src/Task/Conclusion.antt =====
-- The status of a flow that has ended. About the end of `start` in TaskManager.ts.
use mathlib.Core.Option
use nosana_node.Base.{
  ℕ, suc, zero, ◌≡◌, refl, ap, ◌↔◌, ◌⊎◌, inl, inr, true, false, some, List, [], ◌∷◌, arith,
  Bool-cases, get_elem?, any,
}
use nosana_node.Repository.{Status, OpState}
use nosana_node.Task.{Manager}
use nosana_node.Task.Groups.{conclude, op_states_of, is_failed}

abbrev pub FailedAt : List OpState → Type 0
FailedAt states =
    (i : ℕ) × (Option.map (λ (s : OpState). s.status) (get_elem? states i) ≡ some Status.failed)

is_failed-eq : (status : Status) → is_failed status ≡ true → status ≡ Status.failed
is_failed-eq status h = ground arith

FailedAt-of_any :
    (states : List OpState)
    → any (λ (s : OpState). is_failed s.status) states ≡ true
    → FailedAt states
FailedAt-of_any [] h = absurd (ground arith)
FailedAt-of_any (s ∷ states) h = elim (Bool-cases (is_failed s.status)) [
  | inl here ↦ (0, ap some (is_failed-eq s.status here))
  | inr later ↦ let rest = FailedAt-of_any states (ground arith) in (suc rest.0, rest.1)
]

any_of_FailedAt :
    (states : List OpState)
    → FailedAt states
    → any (λ (s : OpState). is_failed s.status) states ≡ true
any_of_FailedAt [] (i, h) = absurd (ground arith)
any_of_FailedAt (s ∷ states) (zero, h) = ground arith
any_of_FailedAt (s ∷ states) (suc i, h) = ground (arith, any_of_FailedAt states (i, h))

success_of_none :
    (now : ℕ) (m : Manager)
    → any (λ (s : OpState). is_failed s.status) (op_states_of m) ≡ false
    → (conclude now m).status ≡ Status.failed
    → ⊥
unfolding conclude
success_of_none now m h = rw (h, conclude) (λ same. ground arith)

-- The flow ends as failed if the state of one of its operations is failed and only then, and else
-- as a success.
pub conclude_iff :
    (now : ℕ) (m : Manager)
    → ((conclude now m).status ≡ Status.failed ↔ FailedAt (op_states_of m))
      × ((conclude now m).status ≡ Status.failed ⊎ (conclude now m).status ≡ Status.success)
unfolding conclude
conclude_iff now m =
    elim (Bool-cases (any (λ (s : OpState). is_failed s.status) (op_states_of m))) [
      | inl some_failed ↦ (
        (
          (λ h. FailedAt-of_any (op_states_of m) some_failed),
          (λ h. rw (some_failed, conclude) refl),
        ),
        inl (rw (some_failed, conclude) refl),
      )
      | inr none_failed ↦ (
        (
          (λ h. absurd (success_of_none now m none_failed h)),
          (λ h. absurd (ground (arith, none_failed, any_of_FailedAt (op_states_of m) h))),
        ),
        inr (rw (none_failed, conclude) refl),
      )
    ]

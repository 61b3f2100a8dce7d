-- ===== src/Provider/Runs.antt =====
-- How a run of an operation ends.
use nosana_node.Base.{
  String, ℕ, suc, ◌≡◌, refl, ◌⊎◌, inl, inr, Bool, true, false, Option, none, some, List, [], ◌∷◌,
  map, if◌then◌else◌, Result, ok, err, arith, Bool-cases, Option-cases,
}
use nosana_node.Provider.{
  Event, start, end, during, exit, log, error, Attempt, Repair, Ran, fail, emitting, conclude,
  attempt, is_final, run_again, after_repair, recover_first, run_operation,
}

abbrev pub is_end : Event → Bool
is_end end = true
is_end _ = false

-- Reports how the operation has ended.
abbrev pub is_outcome : Event → Bool
is_outcome (exit n) = true
is_outcome (error e) = true
is_outcome _ = false

abbrev pub tally : (Event → Bool) → List Event → ℕ
tally p [] = 0
tally p (x ∷ xs) = if p x then suc (tally p xs) else tally p xs

abbrev pub last : List Event → Option Event
last [] = none
last (x ∷ []) = some x
last (x ∷ y ∷ xs) = last (y ∷ xs)

-- One outcome and one end, which is the last event.
pub record IsEnded (events : List Event) : Type 0 where
  pub one_end : tally is_end events ≡ 1
  pub one_outcome : tally is_outcome events ≡ 1
  pub at_last : last events ≡ some end

pub record IsUnended (events : List Event) : Type 0 where
  pub no_end : tally is_end events ≡ 0
  pub no_outcome : tally is_outcome events ≡ 0

-- A run that throws one of some errors has emitted no outcome and no end; any other run ends.
abbrev pub Settles : (String → Type 0) → Ran → Type 0
Settles Thrown ran =
    ((ran.1 ≡ none) × IsEnded ran.0)
    ⊎ ((e : String) × (ran.1 ≡ some e) × Thrown e × IsUnended ran.0)

-- An event that is no end and no outcome.
abbrev IsInner : Event → Type 0
IsInner e = (is_end e ≡ false) × (is_outcome e ≡ false)

IsEnded-inner :
    (x : Event) (events : List Event) → IsInner x → IsEnded events → IsEnded (x ∷ events)
IsEnded-inner x [] inner h = absurd (ground (arith, h.at_last))
IsEnded-inner x (y ∷ events) inner h = record {
  one_end = ground (arith, inner, h.one_end);
  one_outcome = ground (arith, inner, h.one_outcome);
  at_last = h.at_last;
}

Settles-inner :
    (T : String → Type 0) (x : Event) (ran : Ran)
    → IsInner x
    → Settles T ran
    → Settles T (emitting (x ∷ []) ran)
Settles-inner T x ran inner (inl (none_thrown, ended)) =
    inl (none_thrown, IsEnded-inner x ran.0 inner ended)
Settles-inner T x ran inner (inr (e, thrown, known, unended)) = inr (
  e,
  thrown,
  known,
  record {
    no_end = ground (arith, inner, unended.no_end);
    no_outcome = ground (arith, inner, unended.no_outcome);
  },
)

Settles-during :
    (T : String → Type 0) (events : List String) (ran : Ran)
    → Settles T ran
    → Settles T (emitting (map during events) ran)
Settles-during T [] ran h = h
Settles-during T (x ∷ xs) ran h =
    Settles-inner T (during x) (emitting (map during xs) ran) (refl, refl)
      (Settles-during T xs ran h)

Settles-fail : (T : String → Type 0) (e : String) → Settles T (fail e)
Settles-fail T e = inl (refl, record { one_end = refl; one_outcome = refl; at_last = refl })

Settles-attempt :
    (T : String → Type 0) (a : Attempt) (recover : String → Ran)
    → ((e : String) → a.unready ≡ some e → T e)
    → ((e : String) → Settles T (recover e))
    → Settles T (attempt a recover)
unfolding attempt
Settles-attempt T a recover unready recovered = elim (Bool-cases a.aborted) [
  | inl d ↦
      rw (attempt, d) (inl (refl, record { one_end = refl; one_outcome = refl; at_last = refl }))
  | inr d ↦ elim (Option-cases a.unready) [
    | inr (e, u) ↦
        rw (attempt, d, u) (inr (e, refl, unready e u, record { no_end = refl; no_outcome = refl }))
    | inl u ↦
        rw (attempt, d, u)
          (Settles-inner T start (emitting (map during a.events) (conclude recover a.outcome))
            (refl, refl)
            (Settles-during T a.events (conclude recover a.outcome) (concluded a.outcome)))
  ]
]
  where
    concluded : (r : Result String ℕ) → Settles T (conclude recover r)
    concluded (ok n) = inl (refl, record { one_end = refl; one_outcome = refl; at_last = refl })
    concluded (err e) = recovered e

-- A wait for a recreate that may throw.
abbrev pub Unready : Attempt → Attempt → String → Type 0
Unready first second e = (first.unready ≡ some e) ⊎ (second.unready ≡ some e)

run_again-Settles :
    (has_runtime : Bool) (first second : Attempt)
    → Settles (Unready first second) (run_again has_runtime second)
unfolding run_again
run_again-Settles has_runtime first second =
    Settles-attempt (Unready first second) second _ (λ e u. inr u)
      λ e. elim (Bool-cases (is_final has_runtime second)) [
        | inl d ↦ rw d (Settles-fail (Unready first second) e)
        | inr d ↦ rw d (
            Settles-inner (Unready first second) (log "reboot the host") (fail e) (refl, refl)
              (Settles-fail (Unready first second) e))
      ]

-- A run of a container operation throws only what a wait for a recreate under way throws, and then
-- it has emitted no exit, no error and no end. In every other case it emits one exit or error, and
-- one end, which comes last, also where the operation is tried again on a new runtime.
pub run_operation-Settles :
    (has_runtime : Bool) (first : Attempt) (repair : Repair) (second : Attempt)
    → Settles (Unready first second) (run_operation has_runtime first repair second)
unfolding run_operation recover_first after_repair
run_operation-Settles has_runtime first repair second =
    let T = Unready first second in
    Settles-attempt T first _ (λ e u. inl u)
      λ e. elim (Bool-cases (is_final has_runtime first)) [
        | inl d ↦ rw (recover_first, d) (Settles-fail T e)
        | inr d ↦
            rw (recover_first, d)
              (Settles-inner T (log "recreating podman and retrying")
                (after_repair has_runtime e repair second) (refl, refl) (repaired e))
      ]
  where
    repaired :
        (e : String) → Settles (Unready first second) (after_repair has_runtime e repair second)
    repaired e = elim (Option-cases repair.thrown) [
      | inr (e', r) ↦ rw (after_repair, r) (Settles-fail (Unready first second) e')
      | inl r ↦ elim (Bool-cases repair.aborted) [
        | inl b ↦ rw (after_repair, r, b) (Settles-fail (Unready first second) e)
        | inr b ↦ rw (after_repair, r, b) (run_again-Settles has_runtime first second)
      ]
    ]

-- ===== src/Health/Checks.antt =====
-- What the checks of a port give, and which of them are ever looked at again.
use nosana_node.Base.{
  String, ℕ, ◌+◌, ◌<◌, ◌≡◌, refl, sym, ap, ◌∙◌, ◌↔◌, Bool, true, false, not, ◌&&◌, ◌||◌, Option,
  none, some, List, [], ◌∷◌, arith, if◌then◌else◌, or_else, all,
}
use nosana_node.Health.{
  Check, ExposedPort, skipped, healthy, runs, check_loop, check_port_health, startup_only,
  unreachable, report_unreachable, HealthCheck, clear_interval, on_continuous_result,
}

-- Whether the probe of a check succeeds, or is not made.
abbrev pub passes : (Check → Bool) → Bool → Check → Bool
passes success is_number check = not (runs is_number check.probe) || success check

module _ (success : Check → Bool) (is_number : Bool) where
  check_loop-healthy_iff :
      (initial : Bool) (checks : List Check)
      → (check_loop success initial is_number checks ≡ healthy) ↔ (
          all (λ (c : Check). passes success is_number c && (initial || c.continuous)) checks
          ≡ true)
  unfolding check_loop
  check_loop-healthy_iff initial [] = ((λ h. refl), (λ h. refl))
  check_loop-healthy_iff initial (check ∷ checks) =
      let later = check_loop-healthy_iff initial checks in
      (ground (arith, later), ground (arith, later))

  check_loop-skipped :
      (checks : List Check)
      → all (λ (c : Check). passes success is_number c) checks ≡ true
      → all (λ (c : Check). c.continuous) checks ≡ false
      → check_loop success false is_number checks ≡ skipped
  unfolding check_loop
  check_loop-skipped [] p c = absurd (ground arith)
  check_loop-skipped (check ∷ checks) p c = ground (arith, check_loop-skipped checks)

-- A port with checks is healthy if no probe of them fails and, but for the first run, all of them
-- are continuous; and only then.
pub check_port_health_iff :
    (success : Check → Bool) (port : ExposedPort) (initial : Bool) (check : Check)
    (checks : List Check)
    → port.health_checks ≡ some (check ∷ checks)
    → (check_port_health success port initial ≡ healthy) ↔ (
        all
          (λ (c : Check). passes success port.is_number c && (initial || c.continuous))
          (check ∷ checks)
        ≡ true)
unfolding check_port_health
check_port_health_iff success port initial check checks h =
    rw (h, check_port_health)
      (check_loop-healthy_iff success port.is_number initial (check ∷ checks))

-- If a port has a check that is for the startup only, the continuous checks of the port end when
-- no probe fails: the timer is cleared, and nothing else changes.
pub on_continuous_result-ends :
    (success : Check → Bool) (port : ExposedPort) (check : Check) (checks : List Check)
    (id : String) (timer : ℕ) (h : HealthCheck)
    → port.health_checks ≡ some (check ∷ checks)
    → all (λ (c : Check). passes success port.is_number c) (check ∷ checks) ≡ true
    → all (λ (c : Check). c.continuous) (check ∷ checks) ≡ false
    → on_continuous_result id timer (check_port_health success port false) h
      ≡ clear_interval timer h
unfolding check_port_health on_continuous_result
on_continuous_result-ends success port check checks id timer h there pass once =
    rw
      (
        there,
        check_port_health,
        check_loop-skipped success port.is_number (check ∷ checks) pass once,
      )
      refl

-- The checks that are to restart the container but are for the startup only or stand after one
-- that is; `late` says that one has been passed.
abbrev pub out_of_reach : Bool → List Check → List Check
out_of_reach late [] = []
out_of_reach late (check ∷ checks) =
    let rest = out_of_reach (late || not check.continuous) checks in
    if check.restart_on_failure && (late || not check.continuous) then check ∷ rest else rest

abbrev shift : ℕ → Option ℕ → Option ℕ
shift n none = none
shift n (some k) = some (n + k)

shift_zero : (first : Option ℕ) → shift 0 first ≡ first
shift_zero none = refl
shift_zero (some k) = ap some (omega arith)

unreachable_late :
    (first index : ℕ) (checks : List Check)
    → first < index
    → unreachable (some first) index checks ≡ out_of_reach true checks
unfolding unreachable
unreachable_late first index [] h = refl
unreachable_late first index (check ∷ checks) h =
    ground (arith, unreachable_late first (index + 1) checks)

unreachable_early :
    (index : ℕ) (checks : List Check)
    → unreachable (shift index (startup_only checks)) index checks ≡ out_of_reach false checks
unfolding unreachable startup_only
unreachable_early index [] = refl
unreachable_early index (check ∷ checks) =
    ground (arith, unreachable_early (index + 1) checks, unreachable_late index (index + 1) checks)

-- The checks that `reportUnreachableRestartChecks` reports are, in order, those which are to restart
-- the container but are not continuous or stand after a check that is not.
pub report_unreachable-eq :
    (port : ExposedPort)
    → report_unreachable port ≡ out_of_reach false (or_else port.health_checks [])
unfolding report_unreachable
report_unreachable-eq port =
    let checks = or_else port.health_checks [] in
    ap (λ (first : Option ℕ). unreachable first 0 checks) (sym (shift_zero (startup_only checks)))
    ∙ unreachable_early 0 checks

-- ===== src/Update/Wrapper.antt =====
-- auto-update/src/index.ts: the process that installs the node, starts it, and starts it again when
-- it asks for that. A run of the loop is the list of the exits of the node.
use nosana_node.Base.{
  ℕ, ◌==◌, Bool, true, false, Option, none, some, List, [], ◌∷◌, if◌then◌else◌, String, or_else,
}
use nosana_node.Update.{ExitRequest, update, restart, Exit, respawn_exit_code}

-- An exit of the node, and whether a signal to stop has come by then.
pub record Ended : Type 0 where
  pub exit : Exit
  pub stop_signal : Bool

-- The last of the messages that is an `ExitRequest`.
unfoldable pub last_request : List (Option ExitRequest) → Option ExitRequest
last_request [] = none
last_request (m ∷ ms) = elim (last_request ms) [ some r ↦ some r | none ↦ m ]

-- The request that an exit stands for.
unfoldable pub request_of : Exit → Option ExitRequest
request_of e =
    if e.exit_code == respawn_exit_code
    then some (or_else (last_request e.messages) (update false none))
    else none

-- What the wrapper does after an exit.
pub data Next : Type 0 where
  -- It ends with a code.
  leaves : ℕ → Next
  -- It throws: an update is asked of a version that is pinned.
  throws : Next
  -- After so many seconds, it installs the versions and starts the node again, which is told
  -- whether it was in the job loop. `none` is the latest version.
  respawns : ℕ → List (Option String) → Bool → Next

abbrev pub restart_delay_s : ℕ
restart_delay_s = 60

abbrev pub is_pinned : Option String → Bool
is_pinned none = false
is_pinned (some v) = true

abbrev pub answer : Option String → ℕ → Option ExitRequest → Next
answer pin exit_code none = leaves exit_code
answer pin exit_code (some (update in_job_loop target)) =
    if is_pinned pin then throws else respawns 0 (target ∷ []) in_job_loop
answer pin exit_code (some (restart in_job_loop)) =
    if in_job_loop
    then respawns restart_delay_s (if is_pinned pin then [] else none ∷ []) true
    else leaves exit_code

-- The body of the loop after the exit; `pin` is the environment's `NOSANA_NODE_VERSION`.
unfoldable pub after_exit : Option String → Ended → Next
after_exit pin e =
    if e.stop_signal
    then leaves e.exit.exit_code
    else answer pin e.exit.exit_code (request_of e.exit)

-- A start of the node: the seconds and the installations before it, and what it is told.
pub record Start : Type 0 where
  pub waited : ℕ
  pub installs : List (Option String)
  pub in_job_loop : Bool

-- How the wrapper stands when its exits are used up.
pub data Status : Type 0 where
  runs thrown : Status
  left : ℕ → Status

-- The starts after the first, and how the wrapper ends.
unfoldable pub loop : Option String → List Ended → List Start × Status
loop pin [] = ([], runs)
loop pin (e ∷ es) =
    let rest = loop pin es in
    elim (after_exit pin e) [
      | leaves n ↦ ([], left n)
      | throws ↦ ([], thrown)
      | respawns s i l ↦ (record { waited = s; installs = i; in_job_loop = l } ∷ rest.0, rest.1)
    ]

-- `version ?? process.env.NOSANA_NODE_INITIAL_VERSION`
abbrev pub first_version : Option String → Option String → Option String
first_version (some version) seed = some version
first_version none seed = seed

-- `nosanaCLIRunner`: all starts of the node.
unfoldable pub run_wrapper : Option String → Option String → List Ended → List Start × Status
run_wrapper pin seed exits =
    let rest = loop pin exits in
    (
      record { waited = 0; installs = first_version pin seed ∷ []; in_job_loop = false } ∷ rest.0,
      rest.1,
    )

-- ===== src/Update/Loop.antt =====
-- The node and its wrapper together: which errors lead to another process, and what a wrapper with
-- a pinned version installs.
use nosana_node.Base.{
  String, str_eq, ℕ, ◌≡◌, ap, ◌⊎◌, inl, inr, refl, true, false, Option, none, some, Result, List,
  [], ◌∷◌, ◌++◌, arith, Bool-cases, contains,
}
use nosana_node.Base.Map.{Map}
use nosana_node.Update.{
  ExitRequest, update, restart, Exit, respawn_exit_code, request_exit, goes_on, on_error, exit_of,
  terminal_errors, validate_cli_version, registry_version, dist_tag,
}
use nosana_node.Update.Versions.{validate_cli_version_cases}
use nosana_node.Update.Wrapper.{
  Ended, request_of, last_request, leaves, respawns, after_exit, Start, loop, run_wrapper,
}

-- A node that fails before the job loop is not started again: whatever the error, the process
-- exits, and the wrapper ends, if it has taken the message.
pub on_error-leaves :
    (name : String) (outdated : Option ExitRequest) (pin : Option String)
    → (e : Exit) × (n : ℕ) × (exit_of true (on_error name false false outdated).1 ≡ some e)
      × (after_exit pin (record { exit = e; stop_signal = false }) ≡ leaves n)
unfolding on_error exit_of request_exit after_exit request_of last_request
on_error-leaves name outdated pin = elim (Bool-cases (str_eq name "WSLBlockedError")) [
  | inl w ↦ (record { exit_code = 1; messages = [] }, 1, rw w refl, refl)
  | inr w ↦ elim (Bool-cases (str_eq name "NodeAlreadyActiveError")) [
    | inl a ↦ (record { exit_code = 0; messages = [] }, 0, rw (w, a) refl, refl)
    | inr a ↦ elim (Bool-cases (contains name terminal_errors)) [
      | inl t ↦ (record { exit_code = 0; messages = [] }, 0, rw (w, a, t) refl, refl)
      | inr t ↦ (request_exit true (restart false), respawn_exit_code, rw (w, a, t) refl, refl)
    ]
  ]
]

-- Unless the node is stopping, an error in the job loop that is none of the two that end the process
-- keeps the node running, or the registry has a version under the tag of the node's own, and the node
-- exits with a request for it; a wrapper that takes the message and has no pinned version installs
-- just that version of the registry, and starts it as a node in the job loop.
pub on_error-respawns :
    (name version : String) (seed : Option String) (tags : Result String (Option (Map String)))
    → str_eq name "WSLBlockedError" ≡ false
    → str_eq name "NodeAlreadyActiveError" ≡ false
    → let ending = (on_error name false true (validate_cli_version true version seed tags)).1 in
      (ending ≡ goes_on)
      ⊎ ((latest : String) × (e : Exit) × (registry_version tags (dist_tag version) ≡ some latest)
          × (exit_of true ending ≡ some e)
          × (after_exit none (record { exit = e; stop_signal = false })
              ≡ respawns 0 (some latest ∷ []) true))
unfolding on_error exit_of request_exit after_exit request_of last_request
on_error-respawns name version seed tags not_wsl not_active =
    elim (validate_cli_version_cases version seed tags) [
      | inl h ↦ inl (rw (not_wsl, not_active, h) refl)
      | inr (latest, known, h) ↦ inr (
        latest,
        request_exit true (update true (some latest)),
        known,
        rw (not_wsl, not_active, h) refl,
        refl,
      )
    ]

abbrev pub all_installs : List Start → List (Option String)
all_installs [] = []
all_installs (s ∷ ss) = s.installs ++ all_installs ss

after_pinned-installs : (v : String) (e : Ended) → all_installs (loop (some v) (e ∷ [])).0 ≡ []
unfolding loop after_exit
after_pinned-installs v e = ground arith

loop-installs : (v : String) (es : List Ended) → all_installs (loop (some v) es).0 ≡ []
unfolding loop
loop-installs v [] = refl
loop-installs v (e ∷ es) = ground (arith, after_pinned-installs v e, loop-installs v es)

-- A wrapper whose version is pinned installs that version once, and nothing else ever.
pub run_wrapper-installs :
    (v : String) (seed : Option String) (es : List Ended)
    → all_installs (run_wrapper (some v) seed es).0 ≡ some v ∷ []
unfolding run_wrapper
run_wrapper-installs v seed es = ap (λ l. some v ∷ l) (loop-installs v es)

-- ===== src/Provider/Samples.antt =====
-- A container that fails on a stale GPU runtime and runs once that is recreated, and a runtime with
-- the leftovers of an earlier run.
use nosana_node.Base.{refl, String, ◌≡◌, true, false, ◌&&◌, none, ok, err, [], ◌∷◌, contains}
use nosana_node.Provider.{Attempt, Repair, run_operation, Runtime, launch, tear_down}
use nosana_node.Provider.Runs.{Settles, Unready, run_operation-Settles}
use nosana_node.Provider.Names.{is_other, tear_down-launch}

abbrev failing : Attempt
failing = record {
  aborted = false;
  unready = none;
  events = "container:created" ∷ [];
  outcome = err "unresolvable CDI devices";
  runtime_stale = true;
  aborted_after = false;
}

abbrev running : Attempt
running = record failing { events = "container:started" ∷ []; outcome = ok 0 }

abbrev repaired : Repair
repaired = record { thrown = none; aborted = false }

run_operation-Settles_example :
    Settles (Unready failing running) (run_operation true failing repaired running)
run_operation-Settles_example = run_operation-Settles true failing repaired running

abbrev leftovers : Runtime
leftovers = record { containers = "other" ∷ "frpc-job-0" ∷ "job-0" ∷ []; stuck = "other" ∷ [] }

tear_down-launch_example :
    (after : Runtime) × (launch true true "job-0" leftovers ≡ ok after)
    × (contains "job-0" after.containers ≡ true)
    × ((x : String)
        → is_other "job-0" x ≡ true
        → contains x after.containers ≡ contains x leftovers.containers)
    × ((x : String)
        → contains x (tear_down "job-0" after).containers
          ≡ (is_other "job-0" x && contains x leftovers.containers))
tear_down-launch_example = tear_down-launch true true "job-0" leftovers (refl, refl, refl)

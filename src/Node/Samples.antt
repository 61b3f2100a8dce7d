-- ===== src/Node/Samples.antt =====
-- A node that joins the queue of its market, and a job that is stopped while it runs.
use nosana_node.Base.{◌≡◌, refl, true, false, none, some, ok}
use nosana_node.Node.{Steps, start_node, Cycle, stopped}
use nosana_node.Node.Cycles.{start_node-asked}

abbrev steps : Steps
steps = record {
  checked = none;
  wsl_blocked = none;
  market = ok "gpu";
  healthy = ok true;
  set_up = none;
  api_active = ok true;
  has_pending = ok false;
  queued = none;
  raced = some "Market Timeout Error";
}

start_node-asked_example :
    (steps.market ≡ ok "gpu")
    × (steps.healthy ≡ ok true)
    × (steps.set_up ≡ none)
    × (steps.api_active ≡ ok true)
    × (steps.has_pending ≡ ok false)
    × (steps.wsl_blocked ≡ none)
    × ((start_node steps false).in_job_loop ≡ true)
unfolding start_node
start_node-asked_example = start_node-asked steps false "gpu" refl

abbrev cycle : Cycle
cycle = record {
  claimed = none;
  is_expired = false;
  started = ok true;
  ran = none;
  reason = stopped;
  exiting = false;
  finished = none;
}

-- ===== src/Jobs/Resuming.antt =====
-- NodeManager/node/job/jobHandler.ts: the start of a job that has a flow, which constructs its task
-- manager without a definition.
use mathlib.Core.Option
use nosana_node.Base.{
  String, ℕ, Bool, false, ◌≡◌, none, some, [], ◌∷◌, ◌++◌, Result, ok, err, arith, eq_refl, remove,
  or_else,
}
use nosana_node.Base.Map
use nosana_node.Plan.{BuildError}
use nosana_node.Repository.{Flow, Flows, init_error, update_flow_state, update_flow_state_error}
use nosana_node.Jobs.{Services, JobState, start, start_task, refuse_known}
use nosana_node.Task.Bootstrapping.{BootError, not_iterable, bootstrap}

module _ {S : Type 0} (set_host : String → S → Result BuildError S) (set_defaults : S → S)
    (text : BootError → String) (store : S) (project : String) (now : ℕ) where
  -- `new TaskManager(provider, repository, jobId, project)` and `bootstrap`: the flows, or the text
  -- of the error.
  unfoldable pub resume : String → Flows → Result String Flows
  resume id flows =
      elim (bootstrap set_host set_defaults
        (record { job = id; project = project; definition = none }) now store flows) [
          | ok booted ↦ ok booted.0.flows
          | err e ↦ err (text e)
        ]

  -- A job that has a flow is not started again, whatever the flow: `start` returns false, the flow
  -- ends with an `init error`, which is the loop over the operations that are undefined, and the
  -- job has no task.
  pub start-resume :
      (services : Services) (id hash : String) (aborted : Bool) (s : JobState) (flow : Flow)
      → Map.get id s.flows ≡ some flow
      → let started = start services resume id hash project now aborted s in
        (started.1 ≡ ok false)
        × (started.0.tasks ≡ remove id s.tasks)
        × (Option.map (λ f. f.state.status) (Map.get id started.0.flows) ≡ some init_error)
        × (Option.map (λ f. f.state.errors) (Map.get id started.0.flows)
            ≡ some (some (or_else flow.state.errors [] ++ (text not_iterable ∷ []))))
  unfolding start start_task refuse_known update_flow_state_error update_flow_state bootstrap resume
  start-resume services id hash aborted s flow there = ground (
    arith,
    there,
    Map.get-modify id id
        (λ f. record f {
          state = record f.state {
            status = init_error;
            errors = some (or_else f.state.errors [] ++ (text not_iterable ∷ []));
          };
        })
        s.flows,
    eq_refl id,
  )

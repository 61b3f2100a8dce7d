-- ===== src/Api/Samples.antt =====
-- A job of "alice" that runs on the node "node", a signature that is the signer's name, and a check
-- that a stop meets.
use nosana_node.Base.{
  String, str_eq, ◌≡◌, refl, true, none, some, [], ◌∷◌, inr, ok, if◌then◌else◌, arith, ◌⊎◌, ◌↔◌,
  length, is_some, ◌+◌,
}
use nosana_node.Task.Samples.{runs}
use nosana_node.Api.{
  Job, Sdk, Node, Request, act, stop_op, serve, verify_job_owner, on_message, Message, logs, routed,
  silent, states,
}
use nosana_node.Api.Access.{
  serve-IsSigned, on_message_iff, on_message-silent, IsAllowed, IsSigned, Changes, OnlyReplies,
}
use nosana_node.Api.Checks.{
  Checker, start_api_check, fire, unanswered, bound, rebuilt, stop_api_check, schedule_api_check,
}
use nosana_node.Api.Chains.{
  starts, fires, fails, Reach, here, next, Reach-IsSingle, bound-stop, IsSingle, in_flight,
}

abbrev owned : Job
owned = record { project = "alice"; timeout = 60 }

abbrev chain : Sdk String
chain = record {
  job_of = λ job. if str_eq job "job" then ok (some owned) else ok none;
  validate_header = λ header expiry project. ok (str_eq header project);
  validate = λ header project. ok (str_eq header project);
  wallet = "node";
}

abbrev serving : Node
serving = record { tasks = ("job", runs) ∷ []; events = [] }

-- A stop of the database, signed by the owner.
abbrev stop_db : Request String
stop_db = record { job = "job"; header = "alice"; route = act (stop_op "db" "db") }

abbrev forged : Request String
forged = record stop_db { header = "mallory" }

forged_refused : (serve chain forged serving).1 ≡ serving
unfolding serve verify_job_owner
forged_refused = refl

serve-IsSigned_example :
    OnlyReplies serving (serve chain stop_db serving)
    ⊎ (IsSigned chain "alice" "job"
        × Changes (act (stop_op "db" "db")) "job" serving (serve chain stop_db serving))
serve-IsSigned_example = serve-IsSigned chain stop_db serving

abbrev status_of_node : Message String
status_of_node = record { path = "/status"; header = "node"; job = "job" }

on_message_iff_example :
    (on_message chain (some status_of_node) ≡ routed states)
    ↔ ((status_of_node.path ≡ "/status") × IsAllowed chain states status_of_node)
on_message_iff_example = on_message_iff chain states status_of_node

node_routed : on_message chain (some status_of_node) ≡ routed states
node_routed = on_message_iff_example.1 (refl, (refl, owned, refl, inr (refl, refl)))

abbrev forged_log : Message String
forged_log = record { path = "/log"; header = "mallory"; job = "job" }

forged_silent : on_message chain (some forged_log) ≡ silent
forged_silent = on_message-silent chain logs forged_log owned refl refl refl refl

abbrev off : Checker
off = record {
  timer = none;
  pending = [];
  fresh = 0;
  probing = 0;
  rebuilding = 0;
  binding = 0;
  failures = 0;
  exits = 0;
}

-- The API has started, and its first check has found the proxy gone.
abbrev rebuilding_once : Checker
rebuilding_once = unanswered (fire 0 (start_api_check off))

rebuilding-Reach : Reach off rebuilding_once
unfolding start_api_check schedule_api_check fire unanswered
rebuilding-Reach = next (next (next here starts) (fires 0 [] refl)) (fails (omega arith))

Reach-IsSingle_example :
    IsSingle rebuilding_once
    × (length rebuilding_once.pending + in_flight rebuilding_once
        ≡ (if is_some rebuilding_once.timer then 1 else 0))
Reach-IsSingle_example = Reach-IsSingle refl refl refl rebuilding-Reach

-- The stop that comes then.
stopped_checks :
    let d = bound (rebuilt (stop_api_check rebuilding_once)) in
    (length d.pending ≡ 2) × (is_some d.timer ≡ true) × (d.failures ≡ 0)
unfolding start_api_check schedule_api_check fire unanswered
stopped_checks = bound-stop rebuilding_once 0 refl refl refl

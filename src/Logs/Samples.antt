-- ===== src/Logs/Samples.antt =====
-- Three logs, of which one comes with no time and one with an earlier time.
use nosana_node.Base.{String, ℕ, ◌≡◌, refl, Option, none, some, List, [], ◌∷◌, map}
use nosana_node.Base.Map
use nosana_node.Logs.{TaskLog, normalize, push, add_log, get_logs_by_op}
use nosana_node.Logs.Times.{no_logs, add_logs}

abbrev line : String → TaskLog
line message = record { op_id = "a"; group = "a"; kind = "info"; message = message; timestamp = 0 }

abbrev three : List (TaskLog × Option ℕ)
three = (line "x", some 10) ∷ (line "y", none) ∷ (line "z", some 4) ∷ []

three_times :
    map (λ (log : TaskLog). log.timestamp) (get_logs_by_op "a" (add_logs three no_logs))
    ≡ 10 ∷ 11 ∷ 12 ∷ []
unfolding get_logs_by_op add_logs add_log push normalize Map.get Map.set Map.modify
three_times = refl

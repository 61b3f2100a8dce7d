-- ===== src/Logs/Times.antt =====
-- The logs of an operation stand in the order of their times, whatever times they are given.
use nosana_node.Base.{
  String, str_eq, eq_iff, ℕ, suc, ◌≤◌, ◌<◌, ◌≡◌, refl, inl, inr, Option, none, some, List, [], ◌∷◌,
  ◌++◌, arith, if◌then◌else◌, All, Bool-cases, ltb, length, drop, length-append, All-append,
}
use nosana_node.Base.Map
use nosana_node.Base.Map.{Map}
use nosana_node.Logs.{TaskLog, LogFeed, max_logs_per_op, normalize, push, add_log, get_logs_by_op}

-- Each log comes after the one before it.
abbrev pub IsIncreasing : List TaskLog → Type 0
IsIncreasing [] = Unit
IsIncreasing (x ∷ xs) = All (λ y. x.timestamp < y.timestamp) xs × IsIncreasing xs

-- A buffer that is in order, within its bound, and not past a time.
record Kept (time : ℕ) (buffer : List TaskLog) : Type 0 where
  ordered : IsIncreasing buffer
  past : All (λ y. y.timestamp ≤ time) buffer
  bounded : length buffer ≤ max_logs_per_op

normalize_lt : (prev : ℕ) (timestamp : Option ℕ) → prev < normalize prev timestamp
unfolding normalize
normalize_lt prev none = omega arith
normalize_lt prev (some t) = ground arith

All-later :
    (a b : ℕ) (xs : List TaskLog)
    → a ≤ b
    → All (λ y. y.timestamp ≤ a) xs
    → All (λ y. y.timestamp ≤ b) xs
All-later a b [] h k = tt
All-later a b (x ∷ xs) h k = (omega (arith, k.0), All-later a b xs h k.1)

IsIncreasing-concat :
    (xs : List TaskLog) (log : TaskLog) (time : ℕ)
    → IsIncreasing xs
    → All (λ y. y.timestamp ≤ time) xs
    → time < log.timestamp
    → IsIncreasing (xs ++ (log ∷ []))
IsIncreasing-concat [] log time h p l = (tt, tt)
IsIncreasing-concat (x ∷ xs) log time h p l = (
  All-append (λ y. x.timestamp < y.timestamp) xs (log ∷ []) h.0 (omega (arith, p.0), tt),
  IsIncreasing-concat xs log time h.1 p.1 l,
)

Kept-drop :
    (time : ℕ) (buffer : List TaskLog)
    → IsIncreasing buffer
    → All (λ y. y.timestamp ≤ time) buffer
    → length buffer ≤ suc max_logs_per_op
    → Kept time (drop 1 buffer)
Kept-drop time [] h p b = record { ordered = tt; past = tt; bounded = omega arith }
Kept-drop time (x ∷ xs) h p b = record { ordered = h.1; past = p.1; bounded = omega arith }

Kept-push :
    (time : ℕ) (log : TaskLog) (buffer : List TaskLog)
    → Kept time buffer
    → time < log.timestamp
    → Kept log.timestamp (push log buffer)
unfolding push
Kept-push time log buffer h l =
    let pushed = buffer ++ (log ∷ []) in
    let ordered = IsIncreasing-concat buffer log time h.ordered h.past l in
    let past =
      All-append (λ y. y.timestamp ≤ log.timestamp) buffer (log ∷ [])
        (All-later time log.timestamp buffer (omega arith) h.past) (omega arith, tt) in
    let counted = length-append buffer (log ∷ []) in
    elim (Bool-cases (ltb max_logs_per_op (length pushed))) [
      | inl full ↦
          rw (full, push)
            (Kept-drop log.timestamp pushed ordered past (omega (arith, counted, h.bounded)))
      | inr room ↦
          rw (room, push)
            (record { ordered = ordered; past = past; bounded = ground (arith, room) })
    ]

-- The log with the time that it is stored with.
abbrev stamped : TaskLog → Option ℕ → LogFeed → TaskLog
stamped log timestamp feed = record log { timestamp = normalize feed.last_timestamp timestamp }

get_logs_by_op-add_log :
    (op : String) (log : TaskLog) (timestamp : Option ℕ) (feed : LogFeed)
    → get_logs_by_op op (add_log log timestamp feed).0 ≡ (
        if str_eq log.op_id op
        then push (stamped log timestamp feed) (get_logs_by_op op feed)
        else get_logs_by_op op feed)
unfolding get_logs_by_op add_log
get_logs_by_op-add_log op log timestamp feed =
    let now = stamped log timestamp feed in
    elim (Bool-cases (Map.has log.op_id feed.buffers)) [
      | inl old ↦ rw old (
          ground
            (arith, eq_iff log.op_id op, Map.get-modify log.op_id op (push now) feed.buffers, old))
      | inr new ↦ rw new (
          ground (
            arith,
            eq_iff log.op_id op,
            new,
            Map.get-set log.op_id op [] feed.buffers,
            Map.get-modify log.op_id op (push now) (Map.set log.op_id [] feed.buffers),
          ))
    ]

-- What holds of a feed all the time.
AllKept : LogFeed → Type 0
AllKept feed = (op : String) → Kept feed.last_timestamp (get_logs_by_op op feed)

last_timestamp-add_log :
    (log : TaskLog) (timestamp : Option ℕ) (feed : LogFeed)
    → (add_log log timestamp feed).0.last_timestamp ≡ normalize feed.last_timestamp timestamp
unfolding add_log
last_timestamp-add_log log timestamp feed = refl

Kept-later : (a b : ℕ) (buffer : List TaskLog) → a ≤ b → Kept a buffer → Kept b buffer
Kept-later a b buffer h k = record {
  ordered = k.ordered;
  past = All-later a b buffer h k.past;
  bounded = k.bounded;
}

AllKept-add_log :
    (log : TaskLog) (timestamp : Option ℕ) (feed : LogFeed)
    → AllKept feed
    → AllKept (add_log log timestamp feed).0
unfolding AllKept
AllKept-add_log log timestamp feed h op =
    let later = normalize_lt feed.last_timestamp timestamp in
    elim (Bool-cases (str_eq log.op_id op)) [
      | inl same ↦
          rw
            (
              last_timestamp-add_log log timestamp feed,
              get_logs_by_op-add_log op log timestamp feed,
              same,
            )
            (Kept-push feed.last_timestamp (stamped log timestamp feed) (get_logs_by_op op feed)
              (h op) later)
      | inr apart ↦
          rw
            (
              last_timestamp-add_log log timestamp feed,
              get_logs_by_op-add_log op log timestamp feed,
              apart,
            )
            (Kept-later feed.last_timestamp (normalize feed.last_timestamp timestamp)
              (get_logs_by_op op feed) (omega (arith, later)) (h op))
    ]

abbrev pub no_logs : LogFeed
no_logs = record { last_timestamp = 0; buffers = []; subscribers = []; matchers = [] }

-- The state after a run of `addLog`, each log with the time that its caller gives.
unfoldable pub add_logs : List (TaskLog × Option ℕ) → LogFeed → LogFeed
add_logs [] feed = feed
add_logs ((log, timestamp) ∷ history) feed = add_logs history (add_log log timestamp feed).0

AllKept-add_logs :
    (history : List (TaskLog × Option ℕ)) (feed : LogFeed)
    → AllKept feed
    → AllKept (add_logs history feed)
unfolding add_logs
AllKept-add_logs [] feed h = h
AllKept-add_logs ((log, timestamp) ∷ history) feed h =
    AllKept-add_logs history (add_log log timestamp feed).0 (AllKept-add_log log timestamp feed h)

AllKept-no_logs : AllKept no_logs
unfolding AllKept get_logs_by_op Map.get
AllKept-no_logs op = record { ordered = tt; past = tt; bounded = omega arith }

-- After any logs with any times, or none, the logs that an operation has are in the strict order
-- of their times, at most 10000000, and none is later than the last time that was given out.
pub add_logs-IsIncreasing :
    (history : List (TaskLog × Option ℕ)) (op : String)
    → let feed = add_logs history no_logs in
      IsIncreasing (get_logs_by_op op feed)
      × (length (get_logs_by_op op feed) ≤ max_logs_per_op)
      × All (λ y. y.timestamp ≤ feed.last_timestamp) (get_logs_by_op op feed)
unfolding AllKept
add_logs-IsIncreasing history op =
    let kept = AllKept-add_logs history no_logs AllKept-no_logs op in
    (kept.ordered, kept.bounded, kept.past)

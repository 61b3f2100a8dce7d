-- ===== src/Logs.antt =====
-- NodeManager/node/task/loggers/logManager.ts: the log buffers of a task manager, and the sockets
-- that follow them.
pub mod Times
mod Samples
use mathlib.Core.Option
use nosana_node.Base.{
  String, str_eq, eq_iff, eq_refl, ℕ, suc, zero, ◌+◌, ◌-◌, ◌*◌, ◌/◌, ◌%◌, ◌^◌, ◌≤◌, ◌<◌, ◌≡◌, refl,
  sym, ap, ◌∙◌, ◌≢◌, ◌↔◌, ◌⊎◌, inl, inr, Bool, true, false, not, ◌&&◌, ◌||◌, Option, none, some,
  List, [], ◌∷◌, ◌++◌, map, arith, if◌then◌else◌, is_some, or_else, contains, count, remove,
  add_member, IsDistinct, All, Bool-cases, Result, ok, err, recover, ltb, leb, ◌==◌, length,
  is_empty, select, get_elem?, set, take, drop, all, any,
}
use mathlib.Core.List.{flatten}
use nosana_node.Base.Map
use nosana_node.Base.Map.{Map}

-- The timestamp of a log, once it has one; times are milliseconds.
pub record TaskLog : Type 0 where
  pub op_id : String
  pub group : String
  pub kind : String
  pub message : String
  pub timestamp : ℕ

abbrev pub max_logs_per_op : ℕ
max_logs_per_op = 10000000

-- `opLogBuffers`, `subscribers` and `logMatchers` of the manager, and its entry of
-- `lastTimestampByTask`.
pub record LogFeed : Type 0 where
  pub last_timestamp : ℕ
  pub buffers : Map (List TaskLog)
  pub subscribers : List String
  pub matchers : Map (TaskLog → Bool)

-- The normalised timestamp; `none` is no finite number.
unfoldable pub normalize : ℕ → Option ℕ → ℕ
normalize prev none = prev + 1
normalize prev (some timestamp) = if leb timestamp prev then prev + 1 else timestamp

unfoldable pub push : TaskLog → List TaskLog → List TaskLog
push log buffer =
    let pushed = buffer ++ (log ∷ []) in
    if ltb max_logs_per_op (length pushed) then drop 1 pushed else pushed

unfoldable pub log_receivers : List String → Map (TaskLog → Bool) → TaskLog → List String
log_receivers [] matchers log = []
log_receivers (ws ∷ subscribers) matchers log =
    let rest = log_receivers subscribers matchers log in
    elim (Map.get ws matchers) [
      | none ↦ rest
      | some matcher ↦ if matcher log then ws ∷ rest else rest
    ]

-- `addLog`, with the timestamp that the caller gives: the new state, and the sockets written to.
unfoldable pub add_log : TaskLog → Option ℕ → LogFeed → LogFeed × List String
add_log given timestamp feed =
    let now = normalize feed.last_timestamp timestamp in
    let log = record given { timestamp = now } in
    let opened =
      if Map.has log.op_id feed.buffers then feed.buffers else Map.set log.op_id [] feed.buffers in
    (
      record feed { last_timestamp = now; buffers = Map.modify log.op_id (push log) opened },
      log_receivers feed.subscribers feed.matchers log,
    )

unfoldable pub get_logs_by_op : String → LogFeed → List TaskLog
get_logs_by_op op_id feed = or_else (Map.get op_id feed.buffers) []

unfoldable pub logs_of_group : String → List (List TaskLog) → List TaskLog
logs_of_group group [] = []
logs_of_group group (buffer ∷ buffers) =
    select (λ log. str_eq log.group group) buffer ++ logs_of_group group buffers

unfoldable pub get_logs_by_group : String → LogFeed → List TaskLog
get_logs_by_group group feed = logs_of_group group (Map.values feed.buffers)

unfoldable pub get_all_logs : LogFeed → List TaskLog
get_all_logs feed = flatten (Map.values feed.buffers)

unfoldable pub subscribe : String → (TaskLog → Bool) → LogFeed → LogFeed
subscribe ws matcher feed = record feed {
  subscribers = add_member ws feed.subscribers;
  matchers = Map.set ws matcher feed.matchers;
}

unfoldable pub unsubscribe : String → LogFeed → LogFeed
unsubscribe ws feed = record feed {
  subscribers = remove ws feed.subscribers;
  matchers = Map.delete ws feed.matchers;
}

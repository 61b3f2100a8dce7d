-- ===== src/Stats.antt =====
-- NodeManager/node/task/loggers: the bounded buffer of container statistics (StatsBuffer.ts) and
-- the statistics of a task manager with their subscribers (statsManager.ts).
pub mod Search
pub mod Query
pub mod Buffers
mod Samples
use nosana_node.Base.{
  String, str_eq, eq_iff, eq_refl, ℕ, suc, zero, ◌+◌, ◌-◌, ◌*◌, ◌/◌, ◌%◌, ◌^◌, ◌≤◌, ◌<◌, ◌≡◌, refl,
  sym, ap, ◌∙◌, ◌≢◌, ◌↔◌, ◌⊎◌, inl, inr, Bool, true, false, ◌&&◌, ◌||◌, Option, none, remove,
  add_member, or_else, some, List, [], ◌∷◌, ◌++◌, map, append-nil, append_assoc, map-append, arith,
  if◌then◌else◌, is_some, or_else, contains, count, count-append, contains-append, IsDistinct, All,
  All-append, Bool-cases, Option-cases, Result, ok, err, >>=-eq-ok, ltb, leb, ◌==◌, length,
  is_empty, select, select-append, get_elem?, set, take, drop, all, any, length-append,
}
use mathlib.Core.Option
use mathlib.Core.List.{flatten}
use nosana_node.Base.Map
use nosana_node.Base.Map.{Map}

-- Times are milliseconds. The figures are rounded to two decimals by the node and held in
-- hundredths.
pub record TaskStat : Type 0 where
  pub op_id : String
  pub timestamp : ℕ
  pub cpu_percent : ℕ
  pub memory_usage : ℕ
  pub memory_limit : ℕ
  pub memory_percent : ℕ
  pub disk_read : ℕ
  pub disk_write : ℕ
  pub network_received : ℕ
  pub network_sent : ℕ

-- 24 hours of statistics at intervals of 5 seconds.
abbrev pub capacity : ℕ
capacity = 24 * 60 * 60 / 5

unfoldable pub push : TaskStat → List TaskStat → List TaskStat
push stat buffer = (if leb capacity (length buffer) then drop 1 buffer else buffer) ++ (stat ∷ [])

-- `this.buffer[this.buffer.length - 1]`
unfoldable pub latest : List TaskStat → Option TaskStat
latest buffer = if is_empty buffer then none else get_elem? buffer (length buffer - 1)

-- The test of one round of `bsearch`; a read past the end would throw, and is `none`.
unfoldable pub before? : Bool → ℕ → Option TaskStat → Option Bool
before? inclusive timestamp none = none
before? inclusive timestamp (some stat) =
    some (if inclusive then leb stat.timestamp timestamp else ltb stat.timestamp timestamp)

-- `(lo + hi) >>> 1`, on 32 bits
abbrev pub middle : ℕ → ℕ → ℕ
middle lo hi = (lo + hi) % 2 ^ 32 / 2

-- The loop of `bsearch` on fuel; `none` when it throws, or when the fuel runs out.
unfoldable pub bsearch_loop : ℕ → List TaskStat → ℕ → Bool → ℕ → ℕ → Option ℕ
bsearch_loop zero buffer timestamp inclusive lo hi = if ltb lo hi then none else some lo
bsearch_loop (suc fuel) buffer timestamp inclusive lo hi = elim (ltb lo hi) [
  | false ↦ some lo
  | true ↦ elim (before? inclusive timestamp (get_elem? buffer (middle lo hi))) [
    | none ↦ none
    | some true ↦ bsearch_loop fuel buffer timestamp inclusive (middle lo hi + 1) hi
    | some false ↦ bsearch_loop fuel buffer timestamp inclusive lo (middle lo hi)
  ]
]

unfoldable pub bsearch : List TaskStat → ℕ → Bool → Option ℕ
bsearch buffer timestamp inclusive =
    bsearch_loop (length buffer) buffer timestamp inclusive 0 (length buffer)

-- The loop of `query` that thins the slice out.
unfoldable pub thin : ℕ → ℕ → List TaskStat → List TaskStat
thin interval last [] = []
thin interval last (stat ∷ slice) =
    let kept = stat ∷ thin interval stat.timestamp slice in
    let skipped = thin interval last slice in
    if leb interval (stat.timestamp - last) then kept else skipped

-- `if (!intervalMs) return slice`, and the loop otherwise
unfoldable pub sample : Option ℕ → List TaskStat → List TaskStat
sample none slice = slice
sample (some zero) slice = slice
sample (some (suc n)) slice = thin (suc n) 0 slice

-- `start !== undefined ? this.bsearch(start, false) : 0`
unfoldable pub from_index : List TaskStat → Option ℕ → Option ℕ
from_index buffer none = some 0
from_index buffer (some start) = bsearch buffer start false

unfoldable pub to_index : List TaskStat → Option ℕ → Option ℕ
to_index buffer none = some (length buffer)
to_index buffer (some end) = bsearch buffer end true

-- `buffer.slice(from, to)`
abbrev pub slice : ℕ → ℕ → List TaskStat → List TaskStat
slice from to buffer = drop from (take to buffer)

-- The range of `query`, where one of `start` and `end` is given; `none` when it throws.
unfoldable pub range : List TaskStat → Option ℕ → Option ℕ → Option (List TaskStat)
range buffer start end = elim (from_index buffer start) [
  | none ↦ none
  | some from ↦ if leb (length buffer) from then some [] else elim (to_index buffer end) [
    | none ↦ none
    | some to ↦ if leb to from then some [] else some (slice from to buffer)
  ]
]

-- `query`. An empty range returns before the sampling, which would leave it empty.
unfoldable pub query : List TaskStat → Option ℕ → Option ℕ → Option ℕ → Option (List TaskStat)
query buffer start end interval =
    if is_empty buffer
    then some []
    else if is_some start || is_some end
    then Option.map (sample interval) (range buffer start end)
    else some (sample interval buffer)

-- `getStatsByOp` and the rest read a manager's statistics by operation.
pub record StatFeed : Type 0 where
  pub buffers : Map (List TaskStat)
  pub subscribers : List String
  pub matchers : Map (TaskStat → Bool)

-- The subscribers that are sent a statistic: `ws.send` runs for those whose matcher accepts it,
-- and its failure is dropped. A subscriber is named by its web socket.
unfoldable pub stat_receivers : List String → Map (TaskStat → Bool) → TaskStat → List String
stat_receivers [] matchers stat = []
stat_receivers (ws ∷ subscribers) matchers stat =
    let rest = stat_receivers subscribers matchers stat in
    elim (Map.get ws matchers) [
      | none ↦ rest
      | some matcher ↦ if matcher stat then ws ∷ rest else rest
    ]

-- `addStat`: the new state, and the sockets written to.
unfoldable pub add_stat : TaskStat → StatFeed → StatFeed × List String
add_stat stat feed =
    let opened =
      if Map.has stat.op_id feed.buffers
      then feed.buffers
      else Map.set stat.op_id [] feed.buffers in
    (
      record feed { buffers = Map.modify stat.op_id (push stat) opened },
      stat_receivers feed.subscribers feed.matchers stat,
    )

unfoldable pub get_stats_by_op : String → StatFeed → List TaskStat
get_stats_by_op op_id feed = or_else (Map.get op_id feed.buffers) []

unfoldable pub get_all_stats : StatFeed → List TaskStat
get_all_stats feed = flatten (Map.values feed.buffers)

-- `statSubscribers` is a `Set`.
unfoldable pub subscribe_stats : String → (TaskStat → Bool) → StatFeed → StatFeed
subscribe_stats ws matcher feed = record feed {
  subscribers = add_member ws feed.subscribers;
  matchers = Map.set ws matcher feed.matchers;
}

-- Also what the socket's `close` event runs.
unfoldable pub unsubscribe_stats : String → StatFeed → StatFeed
unsubscribe_stats ws feed = record feed {
  subscribers = remove ws feed.subscribers;
  matchers = Map.delete ws feed.matchers;
}

-- `getLatestStatPerOp`
unfoldable pub latest_after : ℕ → List (List TaskStat) → List TaskStat
latest_after since [] = []
latest_after since (buffer ∷ buffers) =
    let rest = latest_after since buffers in
    elim (latest buffer) [
      | none ↦ rest
      | some stat ↦ if ltb since stat.timestamp then stat ∷ rest else rest
    ]

unfoldable pub get_latest_stat_per_op : ℕ → StatFeed → List TaskStat
get_latest_stat_per_op since feed = latest_after since (Map.values feed.buffers)

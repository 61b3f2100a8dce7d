-- ===== src/Stats/Buffers.antt =====
-- What the statistics of a manager hold of the history, and who is sent what.
use nosana_node.Base.{
  contains-remove, contains-add_member, remove, add_member, String, str_eq, eq_iff, eq_refl, ◌≡◌,
  refl, inl, inr, Bool, false, ◌&&◌, Option, none, some, List, [], ◌∷◌, ◌++◌, append-nil,
  append_assoc, arith, if◌then◌else◌, contains, Bool-cases, select, select-append,
}
use nosana_node.Base.Map
use nosana_node.Base.Window.{keep_last, keep_last-push}
use nosana_node.Stats.{
  TaskStat, StatFeed, capacity, push, add_stat, get_stats_by_op, stat_receivers, subscribe_stats,
  unsubscribe_stats,
}

abbrev pub no_stats : StatFeed
no_stats = record { buffers = []; subscribers = []; matchers = [] }

-- The state after a run of `addStat`.
unfoldable pub add_stats : List TaskStat → StatFeed → StatFeed
add_stats [] feed = feed
add_stats (stat ∷ history) feed = add_stats history (add_stat stat feed).0

abbrev pub of_op : String → TaskStat → Bool
of_op op stat = str_eq stat.op_id op

get_stats_by_op-add_stat :
    (op : String) (stat : TaskStat) (feed : StatFeed)
    → get_stats_by_op op (add_stat stat feed).0
      ≡ (if of_op op stat then push stat (get_stats_by_op op feed) else get_stats_by_op op feed)
unfolding get_stats_by_op add_stat
get_stats_by_op-add_stat op stat feed = elim (Bool-cases (Map.has stat.op_id feed.buffers)) [
  | inl old ↦ rw old (
      ground
        (arith, eq_iff stat.op_id op, Map.get-modify stat.op_id op (push stat) feed.buffers, old))
  | inr new ↦ rw new (
      ground (
        arith,
        eq_iff stat.op_id op,
        new,
        Map.get-set stat.op_id op [] feed.buffers,
        Map.get-modify stat.op_id op (push stat) (Map.set stat.op_id [] feed.buffers),
      ))
]

HoldsHistory : List TaskStat → StatFeed → Type 0
HoldsHistory history feed =
    (op : String) → get_stats_by_op op feed ≡ keep_last capacity (select (of_op op) history)

HoldsHistory-add_stat :
    (history : List TaskStat) (stat : TaskStat) (feed : StatFeed)
    → HoldsHistory history feed
    → HoldsHistory (history ++ (stat ∷ [])) (add_stat stat feed).0
unfolding HoldsHistory push
HoldsHistory-add_stat history stat feed h op = elim (Bool-cases (of_op op stat)) [
  | inl same ↦
      rw (get_stats_by_op-add_stat op stat feed, same, h op, select-append (of_op op), same)
        (keep_last-push capacity (select (of_op op) history) stat (omega arith))
  | inr other ↦ rw (
    get_stats_by_op-add_stat op stat feed,
    other,
    h op,
    select-append (of_op op),
    other,
    append-nil,
  )
]

HoldsHistory-add_stats :
    (past history : List TaskStat) (feed : StatFeed)
    → HoldsHistory past feed
    → HoldsHistory (past ++ history) (add_stats history feed)
unfolding add_stats
HoldsHistory-add_stats past [] feed h = rw append-nil h
HoldsHistory-add_stats past (stat ∷ history) feed h = rw (← append_assoc past (stat ∷ []) history) (
    HoldsHistory-add_stats (past ++ (stat ∷ [])) history (add_stat stat feed).0
      (HoldsHistory-add_stat past stat feed h))

-- After any statistics in any order, `getStatsByOp` returns the last 17280 of an operation, in the
-- order in which they were added.
pub get_stats_by_op-add_stats :
    (history : List TaskStat) (op : String)
    → get_stats_by_op op (add_stats history no_stats)
      ≡ keep_last capacity (select (of_op op) history)
unfolding get_stats_by_op Map.get HoldsHistory
get_stats_by_op-add_stats history op = HoldsHistory-add_stats [] history no_stats (λ k. refl) op

-- Whether the socket has a matcher that accepts the statistic.
abbrev pub accepts : Option (TaskStat → Bool) → TaskStat → Bool
accepts none stat = false
accepts (some matcher) stat = matcher stat

contains-stat_receivers :
    (ws : String) (subscribers : List String) (matchers : Map.Map (TaskStat → Bool))
    (stat : TaskStat)
    → contains ws (stat_receivers subscribers matchers stat)
      ≡ (contains ws subscribers && accepts (Map.get ws matchers) stat)
unfolding stat_receivers
contains-stat_receivers ws [] matchers stat = refl
contains-stat_receivers ws (s ∷ subscribers) matchers stat =
    ground (arith, contains-stat_receivers ws subscribers matchers stat, eq_iff s ws)

-- A socket that subscribes is sent the statistics that its matcher accepts and no others; one that
-- unsubscribes (or closes) is sent none; neither changes what other sockets are sent.
pub add_stat_receivers :
    (ws other : String) (matcher : TaskStat → Bool) (stat : TaskStat) (feed : StatFeed)
    → str_eq ws other ≡ false
    → let sent = λ (f : StatFeed). (add_stat stat f).1 in
      (contains ws (sent (subscribe_stats ws matcher feed)) ≡ matcher stat)
      × (contains ws (sent (unsubscribe_stats ws feed)) ≡ false)
      × (contains other (sent (subscribe_stats ws matcher feed)) ≡ contains other (sent feed))
      × (contains other (sent (unsubscribe_stats ws feed)) ≡ contains other (sent feed))
unfolding add_stat subscribe_stats unsubscribe_stats
add_stat_receivers ws other matcher stat feed h =
    let added = add_member ws feed.subscribers in
    let removed = remove ws feed.subscribers in
    let opened = Map.set ws matcher feed.matchers in
    let closed = Map.delete ws feed.matchers in
    (
      ground (
        arith,
        contains-stat_receivers ws added opened stat,
        eq_refl ws,
        contains-add_member ws ws feed.subscribers,
        Map.get-set_self ws matcher feed.matchers,
      ),
      ground (
        arith,
        contains-stat_receivers ws removed closed stat,
        contains-remove ws ws feed.subscribers,
        eq_refl ws,
      ),
      ground (
        arith,
        contains-stat_receivers other added opened stat,
        contains-stat_receivers other feed.subscribers feed.matchers stat,
        contains-add_member other ws feed.subscribers,
        Map.get-set ws other matcher feed.matchers,
      ),
      ground (
        arith,
        contains-stat_receivers other removed closed stat,
        contains-stat_receivers other feed.subscribers feed.matchers stat,
        contains-remove other ws feed.subscribers,
        Map.get-delete ws other feed.matchers,
      ),
    )

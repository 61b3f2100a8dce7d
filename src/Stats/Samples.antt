-- ===== src/Stats/Samples.antt =====
-- A buffer of three statistics, and two sockets that follow them.
use nosana_node.Base.{String, ℕ, ◌≡◌, refl, none, some, List, [], ◌∷◌, arith, select}
use nosana_node.Base.Window.{keep_last}
use nosana_node.Stats.{
  TaskStat, capacity, before?, bsearch_loop, bsearch, thin, sample, from_index, to_index, range,
  query, get_stats_by_op,
}
use nosana_node.Stats.Search.{IsSorted}
use nosana_node.Stats.Query.{within, query_range}
use nosana_node.Stats.Buffers.{no_stats, add_stats, of_op, get_stats_by_op-add_stats}

abbrev stat_at : String → ℕ → TaskStat
stat_at op time = record {
  op_id = op;
  timestamp = time;
  cpu_percent = 0;
  memory_usage = 0;
  memory_limit = 0;
  memory_percent = 0;
  disk_read = 0;
  disk_write = 0;
  network_received = 0;
  network_sent = 0;
}

abbrev three : List TaskStat
three = stat_at "a" 10 ∷ stat_at "a" 20 ∷ stat_at "a" 30 ∷ []

three-IsSorted : IsSorted three
three-IsSorted = ((omega arith, (omega arith, tt)), ((omega arith, tt), (tt, tt)))

three_found : query three (some 15) none (some 20) ≡ some (stat_at "a" 20 ∷ [])
unfolding query range from_index to_index bsearch bsearch_loop before? sample thin
three_found = refl

query_range_example :
    query three (some 15) (some 30) none
    ≡ some (sample none (select (within (some 15) (some 30)) three))
query_range_example = query_range three (some 15) (some 30) none three-IsSorted (omega arith)

get_stats_by_op-add_stats_example :
    get_stats_by_op "a" (add_stats three no_stats) ≡ keep_last capacity (select (of_op "a") three)
get_stats_by_op-add_stats_example = get_stats_by_op-add_stats three "a"

-- ===== src/Repository/Samples.antt =====
-- Two writes of a database that fail.
use nosana_node.Base.{refl, ◌≢◌, some, [], ◌∷◌}
use nosana_node.Repository.Reports.{no_failure, persist_all, IsSpread, persist_all-IsSpread}

failing_writes :
    let p = persist_all ((1000, some "full") ∷ (2000, some "full") ∷ []) no_failure in
    IsSpread p.reports × (p.reports ≢ [])
failing_writes = persist_all-IsSpread "full" 1000 ((2000, some "full") ∷ []) (refl, tt)

-- ===== src/Podman/Samples.antt =====
-- A container that runs, one recreate of it that is under way while a second is asked for, and one
-- that fails.
use nosana_node.Base.{◌+◌, ◌≡◌, refl, true, false, none, some, arith}
use nosana_node.Podman.{Podman, Faults, begin_recreate, finish_recreate, skipped}
use nosana_node.Podman.Recreating.{
  begins, finishes, Reach, here, next, Reach-restarts, under_way, begin_recreate-lost,
}

abbrev working : Podman
working = record {
  stale_reason = none;
  recreating = false;
  prepared = true;
  fresh = false;
  container = some true;
  restarts = 0;
}

abbrev no_faults : Faults
no_faults = record {
  remove = none;
  inspect = none;
  prepare = none;
  create = none;
  start = none;
  answers = true;
}

abbrev begun_once : Podman
begun_once = (begin_recreate working).1

begun_recreating : (begin_recreate begun_once).1.recreating ≡ true
unfolding begin_recreate
begun_recreating = refl

-- A recreate that is joined by a second, and its end.
recreated : Reach working 1 (finish_recreate no_faults (begin_recreate begun_once).1).1
recreated =
    next {n = 0} {k = 1}
      (next {n = 0} {k = 0} (next {n = 0} {k = 0} here begins (omega arith)) begins (omega arith))
      (finishes no_faults begun_recreating) (omega arith)

Reach-restarts_example :
    let after = (finish_recreate no_faults (begin_recreate begun_once).1).1 in
    after.restarts ≡ 0 + 1 + under_way after
Reach-restarts_example = Reach-restarts refl recreated

abbrev gone_stale : Podman
gone_stale = record working { fresh = true; stale_reason = some "unrepairable" }

abbrev no_space : Faults
no_space = record no_faults { create = some "no space left" }

begin_recreate-lost_example :
    let q = (finish_recreate no_space (begin_recreate gone_stale).1).1 in
    (q.container ≡ none) × (begin_recreate q ≡ (skipped, q))
begin_recreate-lost_example =
    begin_recreate-lost no_space gone_stale "unrepairable" "no space left" refl refl refl refl refl

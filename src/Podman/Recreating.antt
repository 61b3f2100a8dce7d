-- ===== src/Podman/Recreating.antt =====
-- Recreates of the podman container, in any order with what else the node does.
use nosana_node.Base.{
  String, ℕ, ◌+◌, ◌≡◌, true, false, none, some, if◌then◌else◌, ok, arith, inl, inr, Option-cases,
}
use nosana_node.Podman.{
  Podman, Faults, mark_stale, ready, ensure, ensure_running, create_container, begin_recreate,
  finish_recreate, skipped,
}

-- What happens to the manager, with the number of recreates that end by it. A recreate ends only if
-- one is under way.
pub data Step (p : Podman) : ℕ → Podman → Type 0 where
  marks : (reason : String) → Step p 0 (mark_stale reason p)
  waits : Step p 0 (ready p).1
  ensures : (faults : Faults) → Step p 0 (ensure faults p).1
  begins : Step p 0 (begin_recreate p).1
  finishes : (faults : Faults) → p.recreating ≡ true → Step p 1 (finish_recreate faults p).1

-- What the steps reach, with the number of recreates that have ended.
pub data Reach (p : Podman) : ℕ → Podman → Type 0 where
  here : Reach p 0 p
  next : {n k m : ℕ} {q r : Podman} → Reach p n q → Step q k r → m ≡ n + k → Reach p m r

-- What the start of the container leaves alone.
abbrev Keeps : Podman → Podman → Type 0
Keeps p q =
    (q.restarts ≡ p.restarts) × (q.recreating ≡ p.recreating) × (q.stale_reason ≡ p.stale_reason)

ensure-Keeps : (faults : Faults) (p : Podman) → Keeps p (ensure faults p).1
unfolding ensure ensure_running create_container
ensure-Keeps faults p = ground arith

finish_recreate-restarts :
    (faults : Faults) (p : Podman)
    → ((finish_recreate faults p).1.restarts ≡ p.restarts)
      × ((finish_recreate faults p).1.recreating ≡ false)
unfolding finish_recreate
finish_recreate-restarts faults p = elim (Option-cases faults.remove) [
  | inl r ↦ ground (arith, r, ensure-Keeps faults (record p { container = none }))
  | inr (e, r) ↦ ground (arith, r)
]

finish_recreate-stale :
    (faults : Faults) (p : Podman) → (finish_recreate faults p).1.stale_reason ≡ p.stale_reason
unfolding finish_recreate
finish_recreate-stale faults p = elim (Option-cases faults.remove) [
  | inl r ↦ ground (arith, r, ensure-Keeps faults (record p { container = none }))
  | inr (e, r) ↦ ground (arith, r)
]

-- One, if a recreate is under way.
abbrev pub under_way : Podman → ℕ
under_way p = if p.recreating then 1 else 0

Step-restarts :
    {p q : Podman} {k : ℕ} → Step p k q → q.restarts + under_way p ≡ p.restarts + k + under_way q
unfolding mark_stale ready begin_recreate
Step-restarts {p} (marks reason) = ground arith
Step-restarts {p} waits = ground arith
Step-restarts {p} (ensures faults) = ground (arith, ensure-Keeps faults p)
Step-restarts {p} begins = ground arith
Step-restarts {p} (finishes faults h) = ground (arith, finish_recreate-restarts faults p)

-- However recreates are asked for, one runs at a time, and each has the running operations
-- restarted once: those restarts are as many as the recreates that have ended and the one under
-- way.
pub Reach-restarts :
    {p q : Podman} {n : ℕ}
    → p.recreating ≡ false
    → Reach p n q
    → q.restarts ≡ p.restarts + n + under_way q
Reach-restarts idle here = ground arith
Reach-restarts idle (next r st e) = ground (arith, Reach-restarts idle r, Step-restarts st)

-- A recreate that returns leaves a container that runs.
pub finish_recreate-container :
    (faults : Faults) (p : Podman)
    → (finish_recreate faults p).0 ≡ ok tt
    → let q = (finish_recreate faults p).1 in
      (q.container ≡ some true) × (q.recreating ≡ false) × (q.fresh ≡ true)
unfolding finish_recreate ensure ensure_running create_container
finish_recreate-container faults p h = ground arith

-- An operation that has waited for a recreate does not count as a use of its container: a recreate
-- that is asked for after it, with no new reason, does nothing.
pub finish_recreate-skipped :
    (faults : Faults) (p : Podman)
    → p.stale_reason ≡ none
    → (finish_recreate faults (ready p).1).0 ≡ ok tt
    → let q = (finish_recreate faults (ready p).1).1 in begin_recreate q ≡ (skipped, q)
unfolding ready begin_recreate
finish_recreate-skipped faults p clear h =
    ground (
      arith,
      finish_recreate-container faults (ready p).1,
      finish_recreate-stale faults (ready p).1,
    )

-- A recreate of a fresh container that has gone stale, of which the removal succeeds and the
-- creation fails, leaves no container, and the next recreate does nothing.
pub begin_recreate-lost :
    (faults : Faults) (p : Podman) (reason e : String)
    → p.recreating ≡ false
    → p.fresh ≡ true
    → p.stale_reason ≡ some reason
    → faults.remove ≡ none
    → faults.create ≡ some e
    → let q = (finish_recreate faults (begin_recreate p).1).1 in
      (q.container ≡ none) × (begin_recreate q ≡ (skipped, q))
unfolding begin_recreate finish_recreate ensure ensure_running create_container
begin_recreate-lost faults p reason e idle fresh stale removed failing = ground arith

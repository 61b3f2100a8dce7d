-- ===== src/Podman.antt =====
-- NodeManager/provider/podmanManager/PodmanManager.ts: the podman container that the node owns, and
-- its replacement when the driver under it has changed. A recreate is split at its first `await`:
-- `begin_recreate` is what comes before it, and `finish_recreate` the rest.
pub mod Recreating
mod Samples
use nosana_node.Base.{
  String, ℕ, suc, Bool, true, false, not, ◌&&◌, Option, none, some, is_some, if◌then◌else◌, Result,
  ok, err,
}

-- The manager, and what docker has for the container: nothing, or whether it runs. `restarts`
-- counts the calls of `restartRunningOperations`.
pub record Podman : Type 0 where
  pub stale_reason : Option String
  pub recreating : Bool
  pub prepared : Bool
  pub fresh : Bool
  pub container : Option Bool
  pub restarts : ℕ

-- The errors that the calls of docker throw, where they do, but for the status 404 of a container
-- that is not there; and whether the socket answers in time.
pub record Faults : Type 0 where
  pub remove : Option String
  pub inspect : Option String
  pub prepare : Option String
  pub create : Option String
  pub start : Option String
  pub answers : Bool

-- `markStale`: the first reason is kept.
unfoldable pub mark_stale : String → Podman → Podman
mark_stale reason p = if is_some p.stale_reason then p else record p { stale_reason = some reason }

abbrev pub is_stale : Podman → Bool
is_stale p = is_some p.stale_reason

-- `ready`, and whether the caller has to wait for a recreate.
unfoldable pub ready : Podman → Bool × Podman
ready p = (p.recreating, record p { fresh = false })

-- What a call returns or throws, and the manager after it.
abbrev pub Done : Type 0
Done = Result {0, 0} String Unit × Podman

-- The start of a container that is there.
abbrev pub start_container : Faults → Podman → Done
start_container faults p = elim faults.start [
  | some e ↦ (err e, p)
  | none ↦ (ok tt, record p { container = some true })
]

abbrev pub mark_fresh : Done → Done
mark_fresh (err e, p) = (err e, p)
mark_fresh (ok done, p) = (ok done, record p { fresh = true })

-- `create`, with what is left of `prepare` when it has succeeded before
unfoldable pub create_container : Faults → Podman → Done
create_container faults p = elim (if p.prepared then none else faults.prepare) [
  | some e ↦ (err e, record p { prepared = false })
  | none ↦
      let prepared = record p { prepared = true } in
      elim faults.create [
        | some e ↦ (err e, prepared)
        | none ↦ mark_fresh (start_container faults (record prepared { container = some false }))
      ]
]

unfoldable pub ensure_running : Faults → Podman → Done
ensure_running faults p = elim faults.inspect [
  | some e ↦ (err e, p)
  | none ↦ elim p.container [
    | none ↦ create_container faults p
    | some true ↦ (ok tt, p)
    | some false ↦ start_container faults p
  ]
]

abbrev pub wait_for_socket : Faults → Done → Done
wait_for_socket faults (err e, p) = (err e, p)
wait_for_socket faults (ok done, p) =
    if faults.answers then (ok done, p) else (err "its socket did not answer", p)

-- `ensure`
unfoldable pub ensure : Faults → Podman → Done
ensure faults p = wait_for_socket faults (ensure_running faults p)

-- How `recreate` goes on: it waits for the recreate under way, does nothing, or has begun one.
pub data Begun : Type 0 where
  joined skipped begun : Begun

unfoldable pub begin_recreate : Podman → Begun × Podman
begin_recreate p =
    if p.recreating
    then (joined, p)
    else if p.fresh && not (is_stale p)
    then (skipped, p)
    else (begun, record p { recreating = true; stale_reason = none; restarts = suc p.restarts })

-- The removal of the container, of which it does not matter whether there was one.
abbrev pub remove_container : Faults → Podman → Done
remove_container faults p = elim faults.remove [
  | some e ↦ (err e, p)
  | none ↦ (ok tt, record p { container = none })
]

abbrev pub ensure_after : Faults → Done → Done
ensure_after faults (err e, p) = (err e, p)
ensure_after faults (ok done, p) = ensure faults p

-- The rest of `doRecreate`, with the `finally` of `recreate`.
unfoldable pub finish_recreate : Faults → Podman → Done
finish_recreate faults p =
    let ended = ensure_after faults (remove_container faults p) in
    (ended.0, record ended.1 { recreating = false })

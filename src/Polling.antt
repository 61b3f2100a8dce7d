-- ===== src/Polling.antt =====
-- NodeManager/provider/ContainerStateManager.ts: how the node finds that a container has ended,
-- where the container may be restarted. A poll waits for `inspect` between `on_tick` and
-- `on_inspected`; a restart waits between `begin_restart` and `end_restart`.
pub mod Exits
mod Samples
use nosana_node.Base.{ℕ, suc, Bool, true, false, ◌||◌, not, List, [], ◌∷◌, if◌then◌else◌, leb}

pub data ContainerState : Type 0 where
  starting running exited restarting : ContainerState

pub record Monitor : Type 0 where
  pub state : ContainerState
  pub exited_check_count : ℕ
  pub polling : Bool
  pub is_restarting : Bool
  pub aborted : Bool

-- What `inspect` gives: one of the two states in which the container is up, another state, or an
-- error.
pub data Inspected : Type 0 where
  up : Bool → Inspected
  down : Inspected
  thrown : Inspected

abbrev pub exited_checks_required : ℕ
exited_checks_required = 3

unfoldable pub is_exited : ContainerState → Bool
is_exited exited = true
is_exited _ = false

-- `stopMonitoring`, of which the streams are left out
unfoldable pub stop_monitoring : Monitor → Monitor
stop_monitoring m = record m { polling = false }

-- The part of a poll before its `await`, and whether it goes on.
unfoldable pub on_tick : Monitor → Bool × Monitor
on_tick m =
    if m.aborted
    then (false, stop_monitoring m)
    else if m.is_restarting
    then (false, record m { exited_check_count = 0 })
    else (true, m)

abbrev pub up_state : Bool → ContainerState
up_state true = running
up_state false = restarting

-- One more check that did not find the container up.
abbrev pub count_check : Monitor → Monitor
count_check m = record m { exited_check_count = suc m.exited_check_count }

abbrev pub confirmed : Monitor → Bool
confirmed m = leb exited_checks_required m.exited_check_count

-- The part of a poll after its `await`.
unfoldable pub on_inspected : Inspected → Monitor → Monitor
on_inspected (up is_running) m = record m { exited_check_count = 0; state = up_state is_running }
on_inspected down m =
    let counted = count_check m in
    if confirmed counted then record counted { state = exited } else counted
on_inspected thrown m =
    let counted = count_check m in
    if confirmed counted then stop_monitoring (record counted { state = exited }) else counted

-- A tick of the interval and its poll, with nothing in between.
unfoldable pub poll : Inspected → Monitor → Monitor
poll inspected m =
    let (goes_on, ticked) = on_tick m in
    if m.polling then (if goes_on then on_inspected inspected ticked else ticked) else m

unfoldable pub poll_all : List Inspected → Monitor → Monitor
poll_all [] m = m
poll_all (i ∷ is) m = poll_all is (poll i m)

-- `restartContainer` up to its `await`, and whether it goes on.
unfoldable pub begin_restart : Monitor → Bool × Monitor
begin_restart m =
    if m.aborted || is_exited m.state then (false, m) else (true, record m { is_restarting = true })

-- The rest of `restartContainer`, by whether `restart` returned.
unfoldable pub end_restart : Bool → Monitor → Monitor
end_restart came_back m = record (if came_back then record m { state = running } else m) {
  exited_check_count = 0;
  is_restarting = false;
}

-- Whether `waitForExit` resolves when it checks.
unfoldable pub is_over : Monitor → Bool
is_over m = is_exited m.state || m.aborted

-- ===== src/Task/Control.antt =====
-- Stopping and restarting an operation exclude each other, and a restart holds its group open.
-- About operations/stopTaskManagerOperation.ts, operations/restartTaskManagerOperation.ts and
-- `trackGroupOperationPromise` of TaskManager.ts.
use nosana_node.Base.{
  String, str_eq, ◌≡◌, refl, ap, ◌∙◌, Bool, true, false, not, ◌&&◌, Option, none, some, List, [],
  ◌∷◌, arith, if◌then◌else◌, contains, contains-remove, Result, ok, err, recover,
}
use nosana_node.Base.Map
use nosana_node.Base.Map.{Map}
use nosana_node.Operation.{Operation}
use nosana_node.Task.{Lock, Manager, ControlError, stop_operation, restart_operation, is_stopped}
use nosana_node.Task.Groups.{settle, stop_servers, stop_quietly}

abbrev pub refused : Result ControlError Manager → Bool
refused (ok m) = false
refused (err e) = true

-- A locked operation can be neither stopped nor restarted.
pub locked-refused :
    (group id : String) (held : Lock) (m : Manager)
    → Map.get id m.locks ≡ some held
    → (refused (stop_operation group id m) ≡ true) × (refused (restart_operation group id m) ≡ true)
unfolding stop_operation restart_operation
locked-refused group id held m h = (ground (arith), ground (arith))

stop_operation-locks :
    (group id : String) (m next : Manager)
    → stop_operation group id m ≡ ok next
    → is_stopped (Map.get id m.statuses) ≡ false
    → Map.get id next.locks ≡ some Lock.stopping
unfolding stop_operation
stop_operation-locks group id m next h s = ground (arith, Map.get-set_self id Lock.stopping m.locks)

restart_operation-locks :
    (group id : String) (m next : Manager)
    → restart_operation group id m ≡ ok next
    → Map.get id next.locks ≡ some Lock.restarting
unfolding restart_operation
restart_operation-locks group id m next h =
    ground (arith, Map.get-set_self id Lock.restarting m.locks)

-- Once an operation that is not stopped has been told to stop, it can be neither stopped nor
-- restarted again, whatever group is named, until the stop has finished.
pub stop_operation-excludes :
    (group other_group id : String) (m next : Manager)
    → stop_operation group id m ≡ ok next
    → is_stopped (Map.get id m.statuses) ≡ false
    → (refused (stop_operation other_group id next) ≡ true)
      × (refused (restart_operation other_group id next) ≡ true)
stop_operation-excludes group other_group id m next h s =
    locked-refused other_group id Lock.stopping next (stop_operation-locks group id m next h s)

-- Once an operation has been told to restart, it can be neither stopped nor restarted again,
-- whatever group is named, until the restart has finished.
pub restart_operation-excludes :
    (group other_group id : String) (m next : Manager)
    → restart_operation group id m ≡ ok next
    → (refused (stop_operation other_group id next) ≡ true)
      × (refused (restart_operation other_group id next) ≡ true)
restart_operation-excludes group other_group id m next h =
    locked-refused other_group id Lock.restarting next (restart_operation-locks group id m next h)

stop_operation-promises :
    (group id : String) (m next : Manager)
    → stop_operation group id m ≡ ok next
    → next.promises ≡ m.promises
unfolding stop_operation
stop_operation-promises group id m next h = ground arith

kept-promises :
    (m : Manager) (r : Result ControlError Manager)
    → ((next : Manager) → r ≡ ok next → next.promises ≡ m.promises)
    → (recover r m).promises ≡ m.promises
kept-promises m (ok next) keeps = keeps next refl
kept-promises m (err e) keeps = refl

stop_quietly-promises :
    (group : Option String) (id : String) (m : Manager)
    → (stop_quietly group id m).promises ≡ m.promises
stop_quietly-promises none id m = refl
stop_quietly-promises (some group) id m =
    kept-promises m (stop_operation group id m) (stop_operation-promises group id m)

if-promises :
    (b : Bool) (m next : Manager)
    → next.promises ≡ m.promises
    → (if b then next else m).promises ≡ m.promises
if-promises true m next h = h
if-promises false m next h = refl

stop_servers-promises :
    (id : String) (ops : Map Operation) (m : Manager)
    → (stop_servers id ops m).promises ≡ m.promises
unfolding stop_servers
stop_servers-promises id [] m = refl
stop_servers-promises id ((candidate, op) ∷ ops) m =
    stop_servers-promises id ops _
    ∙ if-promises _ m _ (stop_quietly-promises m.current_group candidate m)

-- The settling of a promise takes that promise from those the group waits for, and no other.
pub settle-contains :
    (id other_id : String) (m : Manager)
    → contains other_id (settle id m).promises
      ≡ (not (str_eq id other_id) && contains other_id m.promises)
unfolding settle
settle-contains id other_id m =
    ap (contains other_id) (stop_servers-promises id m.op_map _)
    ∙ contains-remove other_id id m.promises

-- The settling of promises one after the other.
abbrev pub settle_all : List String → Manager → Manager
settle_all [] m = m
settle_all (id ∷ ids) m = settle_all ids (settle id m)

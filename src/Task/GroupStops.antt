-- ===== src/Task/GroupStops.antt =====
-- What the stop of a group does to each operation.
use mathlib.Core.Option
use nosana_node.Base.{
  String, str_eq, eq_iff, eq_refl, ◌≡◌, refl, sym, ◌∙◌, inl, inr, Bool, true, false, ◌||◌, Option,
  none, some, List, [], ◌∷◌, if◌then◌else◌, or_else, contains, arith, Bool-cases, Option-cases, ok,
  recover, ok_inj,
}
use nosana_node.Base.Map
use nosana_node.Base.Map.{Map}
use nosana_node.Plan.{ExecutionContext, find_group}
use nosana_node.Task.{
  Manager, Progress, Lock, StopReason, in_group, stop_operation, signal, is_current,
}
use nosana_node.Task.Groups.{set_all}
use nosana_node.Task.GroupControl.{stop_each, stop_group}

abbrev pub lock_after : Bool → Option Lock → Option Lock
lock_after true held = some (or_else held Lock.stopping)
lock_after false held = held

abbrev pub signal_after :
    Bool → Option Lock → Option (Option StopReason) → Option (Option StopReason)
signal_after true none s = Option.map (signal StopReason.stopped) s
signal_after _ held s = s

-- What a stop does to the lock and the signal of `j`, by whether it is stopped too.
abbrev Stops : Bool → String → Manager → Manager → Type 0
Stops named j m next =
    (Map.get j next.statuses ≡ Map.get j m.statuses)
    × (Map.get j next.locks ≡ lock_after named (Map.get j m.locks))
    × (Map.get j next.aborts ≡ signal_after named (Map.get j m.locks) (Map.get j m.aborts))

-- A stop that is refused, since the operation is locked.
held_case :
    (id j : String) (m : Manager) (held : Lock)
    → Map.get id m.locks ≡ some held
    → Stops (str_eq id j) j m m
held_case id j m held e = elim (Bool-cases (str_eq id j)) [
  | inr n ↦ rw n (refl, refl, refl)
  | inl s ↦
      let same : id ≡ j = ground (arith, eq_iff id j) in
      let there : Map.get j m.locks ≡ some held = rw same at e in rw (s, there) (refl, refl, refl)
]

free_case :
    (id j : String) (m : Manager)
    → Map.get id m.locks ≡ none
    → Map.get id m.statuses ≡ some Progress.stopping
    → Stops (str_eq id j) j m (record m {
      locks = Map.set id Lock.stopping m.locks;
      statuses = Map.set id Progress.stopping m.statuses;
      aborts = Map.modify id (signal StopReason.stopped) m.aborts;
    })
free_case id j m e status = elim (Bool-cases (str_eq id j)) [
  | inr n ↦
      rw
        (
          Map.get-set id j Lock.stopping m.locks,
          Map.get-set id j Progress.stopping m.statuses,
          Map.get-modify id j (signal StopReason.stopped) m.aborts,
          n,
        )
        (refl, refl, refl)
  | inl s ↦
      let same : id ≡ j = ground (arith, eq_iff id j) in
      let there : Map.get j m.locks ≡ none = rw same at e in
      let stopping : Map.get j m.statuses ≡ some Progress.stopping = rw same at status in
      rw
        (
          Map.get-set id j Lock.stopping m.locks,
          Map.get-set id j Progress.stopping m.statuses,
          Map.get-modify id j (signal StopReason.stopped) m.aborts,
          s,
          there,
          stopping,
        )
        (refl, refl, refl)
]

stop_step :
    (group id j : String) (m : Manager)
    → in_group group id m ≡ true
    → Map.get id m.statuses ≡ some Progress.stopping
    → ((recover (stop_operation group id m) m).plan ≡ m.plan)
      × Stops (str_eq id j) j m (recover (stop_operation group id m) m)
unfolding stop_operation
stop_step group id j m listed status = elim (Option-cases (Map.get id m.locks)) [
  | inr (held, e) ↦ rw (listed, e, stop_operation) (refl, held_case id j m held e)
  | inl e ↦ rw (listed, e, stop_operation, status) (refl, free_case id j m e status)
]

lock_after-twice :
    (a b : Bool) (held : Option Lock) → lock_after (a || b) held ≡ lock_after b (lock_after a held)
lock_after-twice true true none = refl
lock_after-twice true true (some l) = refl
lock_after-twice true false held = refl
lock_after-twice false b held = refl

signal_after-twice :
    (a b : Bool) (held : Option Lock) (s : Option (Option StopReason))
    → signal_after (a || b) held s ≡ signal_after b (lock_after a held) (signal_after a held s)
signal_after-twice true true none s = refl
signal_after-twice true true (some l) s = refl
signal_after-twice true false none s = refl
signal_after-twice true false (some l) s = refl
signal_after-twice false b held s = refl

-- Two stops of the same operation are one.
Stops-trans :
    (a b : Bool) (j : String) (m mid next : Manager)
    → Stops a j m mid
    → Stops b j mid next
    → Stops (a || b) j m next
Stops-trans a b j m mid next (status, lock, aborted) (status', lock', aborted') = (
  status' ∙ status,
  lock' ∙ rw lock (sym (lock_after-twice a b (Map.get j m.locks))),
  aborted'
      ∙ rw (lock, aborted) (sym (signal_after-twice a b (Map.get j m.locks) (Map.get j m.aborts))),
)

-- The operations to stop are in the group and `stopping`.
abbrev AreStopping : String → List String → Manager → Type 0
AreStopping group ids m =
    (id : String)
    → contains id ids ≡ true
    → (in_group group id m ≡ true) × (Map.get id m.statuses ≡ some Progress.stopping)

in_group-plan :
    (group id : String) (m next : Manager)
    → next.plan ≡ m.plan
    → in_group group id next ≡ in_group group id m
unfolding in_group
in_group-plan group id m next h = rw h

stop_each-Stops :
    (group : String) (ids : List String) (j : String) (m : Manager)
    → AreStopping group ids m
    → Stops (contains j ids) j m (stop_each group ids m)
unfolding stop_each
stop_each-Stops group [] j m h = (refl, refl, refl)
stop_each-Stops group (id ∷ ids) j m h =
    let (listed, status) = h id (ground (arith, eq_refl id)) in
    let mid = recover (stop_operation group id m) m in
    let (plan, first) = stop_step group id j m listed status in
    let still : AreStopping group ids mid = λ k c.
      let (listed_k, status_k) = h k (ground (arith, c)) in
      let (same, step) = stop_step group id k m listed status in
      (in_group-plan group k m mid plan ∙ listed_k, step.0 ∙ status_k) in
    Stops-trans (str_eq id j) (contains j ids) j m mid (stop_each group ids mid) first
      (stop_each-Stops group ids j mid still)

get-set_all :
    (j : String) (ids : List String) (progress : Progress) (m : Manager)
    → Map.get j (set_all ids progress m).statuses
      ≡ (if contains j ids then some progress else Map.get j m.statuses)
get-set_all j [] progress m = refl
get-set_all j (id ∷ ids) progress m =
    get-set_all j ids progress _ ∙ ground (arith, Map.get-set id j progress m.statuses)

set_all-rest :
    (ids : List String) (progress : Progress) (m : Manager)
    → ((set_all ids progress m).plan ≡ m.plan)
      × ((set_all ids progress m).locks ≡ m.locks)
      × ((set_all ids progress m).aborts ≡ m.aborts)
set_all-rest [] progress m = (refl, refl, refl)
set_all-rest (id ∷ ids) progress m = set_all-rest ids progress _

in_group-found :
    (group id : String) (ctx : ExecutionContext) (m : Manager)
    → find_group group m.plan ≡ some ctx
    → in_group group id m ≡ contains id ctx.ops
unfolding in_group
in_group-found group id ctx m found = rw (found, in_group)

stop_group-next :
    (group : String) (ctx : ExecutionContext) (m next : Manager)
    → find_group group m.plan ≡ some ctx
    → stop_group group m ≡ ok next
    → stop_each group ctx.ops (set_all ctx.ops Progress.stopping m) ≡ next
unfolding stop_group
stop_group-next group ctx m next found h = elim (Bool-cases (is_current group m.current_group)) [
  | inl e ↦ ok_inj (rw (found, e, stop_group) at h)
  | inr e ↦ absurd (ground (arith, rw (found, e, stop_group) at h))
]

-- The stop of the current group makes each of its operations `stopping`, also one that has ended or
-- has not started; it locks for stopping each that is not locked, and signals `stopped` to it where
-- its run has a signal. The lock and the signal of a locked one, and of every other operation, are
-- as they were.
pub stop_group-Stops :
    (group : String) (ctx : ExecutionContext) (m next : Manager) (j : String)
    → find_group group m.plan ≡ some ctx
    → stop_group group m ≡ ok next
    → (Map.get j next.statuses
        ≡ (if contains j ctx.ops then some Progress.stopping else Map.get j m.statuses))
      × (Map.get j next.locks ≡ lock_after (contains j ctx.ops) (Map.get j m.locks))
      × (Map.get j next.aborts
          ≡ signal_after (contains j ctx.ops) (Map.get j m.locks) (Map.get j m.aborts))
stop_group-Stops group ctx m next j found h =
    let set = set_all ctx.ops Progress.stopping m in
    let (plan, locks, aborts) = set_all-rest ctx.ops Progress.stopping m in
    let each : AreStopping group ctx.ops set = λ k c. (
      in_group-plan group k m set plan ∙ in_group-found group k ctx m found ∙ c,
      get-set_all k ctx.ops Progress.stopping m ∙ rw c,
    ) in
    let (status, lock, aborted) = stop_each-Stops group ctx.ops j set each in
    rw (sym (stop_group-next group ctx m next found h)) (
      status ∙ get-set_all j ctx.ops Progress.stopping m,
      lock ∙ rw locks,
      aborted ∙ rw (locks, aborts),
    )

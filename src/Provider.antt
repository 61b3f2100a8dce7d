-- ===== src/Provider.antt =====
-- NodeManager/provider/Provider.ts: one run of a container operation, with its retry on a fresh GPU
-- runtime, the containers that it starts and removes, the arguments that it starts them with, and
-- the operations that create volumes. `Attempt` is what happens between the start and the end of
-- one try, as far as the rest of the run depends on it.
pub mod Runs
pub mod Names
pub mod Arguments
mod Samples
use Prim.Native.Char.{Char, code}
use Prim.Native.String.{◌++◌ as concat}
use nosana_node.Base.{
  String, str_eq, ℕ, ◌==◌, Bool, true, false, not, ◌&&◌, ◌||◌, Option, none, some, is_some, List,
  [], ◌∷◌, ◌++◌, map, if◌then◌else◌, contains, remove, Result, ok, err, ◌>>=◌,
}
use nosana_node.Base.Map
use nosana_node.Base.Map.{Map}
use nosana_node.Literals.{is_empty_text}

-- What a run emits. `during` is any other event between the start and the end.
pub data Event : Type 0 where
  start end : Event
  during : String → Event
  exit : ℕ → Event
  log error : String → Event

-- One try: the events after the start, the exit code or the error, whether the error is that of a
-- stale GPU runtime or the watcher has found it stale, and whether the signal is aborted at the
-- start of the try and where its error is caught. `unready` is what the wait for a recreate under
-- way throws, if it does.
pub record Attempt : Type 0 where
  pub aborted : Bool
  pub unready : Option String
  pub events : List String
  pub outcome : Result String ℕ
  pub runtime_stale : Bool
  pub aborted_after : Bool

-- A recreate of the runtime: its error, if any, and whether the signal is aborted after it.
pub record Repair : Type 0 where
  pub thrown : Option String
  pub aborted : Bool

-- What a run emits, and what it throws, if it does.
abbrev pub Ran : Type 0
Ran = List Event × Option String

-- `fail`, and the end
abbrev pub fail : String → Ran
fail e = (log e ∷ error e ∷ end ∷ [], none)

-- More events, before those of a run.
abbrev pub emitting : List Event → Ran → Ran
emitting events ran = (events ++ ran.0, ran.1)

-- The outcome of a try, where its error is handled by `recover`.
abbrev pub conclude : (String → Ran) → Result String ℕ → Ran
conclude recover (ok exit_code) = (exit exit_code ∷ end ∷ [], none)
conclude recover (err e) = recover e

unfoldable pub attempt : Attempt → (String → Ran) → Ran
attempt a recover = if a.aborted then (exit 0 ∷ end ∷ [], none) else elim a.unready [
  | some e ↦ ([], some e)
  | none ↦ emitting (start ∷ map during a.events) (conclude recover a.outcome)
]

-- `!runtime || controller.signal.aborted || !(isStaleGpuRuntimeError(error) || runtime.isStale())`
abbrev pub is_final : Bool → Attempt → Bool
is_final has_runtime a = not has_runtime || a.aborted_after || not a.runtime_stale

-- The second try, with `retried` set.
unfoldable pub run_again : Bool → Attempt → Ran
run_again has_runtime a =
    attempt a (λ e.
      if is_final has_runtime a then fail e else emitting (log "reboot the host" ∷ []) (fail e))

-- What follows a recreate.
unfoldable pub after_repair : Bool → String → Repair → Attempt → Ran
after_repair has_runtime e repair second = elim repair.thrown [
  | some e' ↦ fail e'
  | none ↦ if repair.aborted then fail e else run_again has_runtime second
]

-- The `catch` of the first try.
unfoldable pub recover_first : Bool → Attempt → Repair → Attempt → String → Ran
recover_first has_runtime first repair second e =
    if is_final has_runtime first
    then fail e
    else emitting (log "recreating podman and retrying" ∷ [])
        (after_repair has_runtime e repair second)

-- `taskManagerContainerRunOperation`
unfoldable pub run_operation : Bool → Attempt → Repair → Attempt → Ran
run_operation has_runtime first repair second =
    attempt first (recover_first has_runtime first repair second)

-- The containers of the runtime, by their names. The networks of the runtime are one gateway, which
-- is never removed.
pub record Runtime : Type 0 where
  pub containers : List String
  -- the containers that cannot be removed
  pub stuck : List String

abbrev pub frpc_name : String → String
frpc_name name = concat "frpc-" name

abbrev pub bridge_name : String → String
bridge_name name = concat "bridge-" name

-- The runtime refuses to create a container whose name is taken.
unfoldable pub create_container : String → Runtime → Result String Runtime
create_container name r =
    if contains name r.containers
    then err name
    else ok (record r { containers = name ∷ r.containers })

abbrev pub create_if : Bool → String → Runtime → Result String Runtime
create_if wanted name r = if wanted then create_container name r else ok r

-- `stopAndDeleteContainer`, of a container that may be there. A failure is swallowed, and the
-- container stays.
unfoldable pub remove_container : String → Runtime → Runtime
remove_container name r =
    if contains name r.stuck then r else record r { containers = remove name r.containers }

-- The three names of an operation.
unfoldable pub remove_containers : String → Runtime → Runtime
remove_containers name r =
    remove_container (bridge_name name)
      (remove_container (frpc_name name) (remove_container name r))

-- What a try does to the runtime: the leftovers are removed, then the proxy of an
-- exposed operation, the bridge of one in a trusted environment and its container are created.
unfoldable pub launch : Bool → Bool → String → Runtime → Result String Runtime
launch exposed trusted name r =
    create_if exposed (frpc_name name) (remove_containers name r) >>= λ proxied.
    create_if trusted (bridge_name name) proxied >>= create_container name

-- `taskManagerContainerStopRunOperation`, on the containers
unfoldable pub tear_down : String → Runtime → Runtime
tear_down name r = remove_containers name r

-- `{ ...a, ...b }`
unfoldable pub spread : Map String → Map String → Map String
spread a [] = a
spread a ((k, v) ∷ b) = spread (Map.set k v a) b

-- The environment of an operation.
unfoldable pub operation_env : Option (Map String) → Option (Map String) → String → Map String
operation_env global own id =
    Map.set "NOSANA_ID" id (
      spread (elim global [ none ↦ [] | some env ↦ env ]) (elim own [ none ↦ [] | some env ↦ env ]))

-- `getWorkingDir`, `getEntrypoint`: the operation's own, unless it has none and the job has one.
unfoldable pub own_or_global : Option String → Option String → Option String
own_or_global own global = elim own [
  | some v ↦ if is_empty_text v then given global (some v) else some v
  | none ↦ given global none
]
  where
    given : Option String → Option String → Option String
    given none v = v
    given (some g) v = if is_empty_text g then v else some g

-- `args.aliases.split(',')`; `alias` is read from the back of the text.
unfoldable pub split_commas : String → List String
split_commas String.[] = "" ∷ []
split_commas (String.◌∷◌ c s) = split_at c (split_commas s)
  where
    split_at : Char → List String → List String
    split_at c [] = []
    split_at c (alias ∷ aliases) =
        if code c == b',' then "" ∷ alias ∷ aliases else String.◌∷◌ c alias ∷ aliases

-- `cmd` and `aliases` are a text or a list of texts.
pub data Texts : Type 0 where
  one : String → Texts
  many : List String → Texts

unfoldable pub parse_op_args_cmd : Texts → List String
parse_op_args_cmd (one cmd) = "/bin/sh" ∷ "-c" ∷ cmd ∷ []
parse_op_args_cmd (many cmd) = cmd

unfoldable pub get_aliases : Texts → List String
get_aliases (one aliases) = split_commas aliases
get_aliases (many aliases) = aliases

-- `getVolumes`: the destination and the name of each volume
unfoldable pub get_volumes : String → List (String × String) → List (String × String)
get_volumes id [] = []
get_volumes id ((dest, name) ∷ volumes) =
    (dest, concat id (concat "-" name)) ∷ get_volumes id volumes

-- The volumes of a container runtime.
pub record Volumes (D : Type 0) : Type 0 where
  pub has_volume : String → D → Bool
  pub create_volume : String → D → Result String D
  pub delete_volume : String → D → Result String D

module _ {D : Type 0} (docker : Volumes D) where
  -- `taskManagerVolumeCreateOperation`: what it emits, and the runtime after it.
  unfoldable pub volume_create : Bool → String → String → D → List Event × D
  volume_create aborted id name d =
      let volume = concat id (concat "-" name) in
      if aborted
      then (exit 0 ∷ end ∷ [], d)
      else if docker.has_volume volume d
      then (start ∷ during "healthcheck:startup:success" ∷ exit 0 ∷ end ∷ [], d)
      else elim (docker.create_volume volume d) [
        | err e ↦ (start ∷ (fail e).0, d)
        | ok created ↦ (
          start
              ∷ during "updateOpHost"
              ∷ during "updateOpState"
              ∷ during "healthcheck:startup:success"
              ∷ exit 0
              ∷ end
              ∷ [],
          created,
        )
      ]

  -- `taskManagerVolumeStopOperation`
  unfoldable pub volume_stop : String → String → D → Result String D
  volume_stop id name d =
      let volume = concat id (concat "-" name) in
      if not (docker.has_volume volume d) then docker.delete_volume volume d else ok d

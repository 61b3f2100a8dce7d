-- ===== src/Provider/Arguments.antt =====
-- The arguments of a container, and its volumes.
use Prim.Native.String.{◌++◌ as concat}
use nosana_node.Base.{
  String, str_eq, ◌≡◌, refl, false, Option, none, some, [], ◌∷◌, if◌then◌else◌, ok, arith,
  Bool-cases, inl, inr, IsDistinct, eq_iff,
}
use nosana_node.Base.Map
use nosana_node.Base.Map.{Map}
use nosana_node.Provider.{spread, operation_env, Volumes, volume_stop}

-- A value under a key, or another.
abbrev pub or_value {ℓ} : {A : Type ℓ} → Option A → Option A → Option A
or_value none other = other
or_value (some v) other = some v

get-spread :
    (k : String) (a b : Map String)
    → IsDistinct (Map.keys b)
    → Map.get k (spread a b) ≡ or_value (Map.get k b) (Map.get k a)
unfolding spread Map.get
get-spread k a [] d = refl
get-spread k a ((j, v) ∷ b) d = ground (
  arith,
  get-spread k (Map.set j v a) b d.1,
  Map.get-set j k v a,
  eq_iff j k,
  Map.has-contains j b,
  d.0,
)

abbrev pub env_of : Option (Map String) → Map String
env_of none = []
env_of (some env) = env

-- A container's environment has the id of its flow under NOSANA_ID, whatever the job says; under
-- every other key it has the operation's value, or the job's where the operation has none, if the
-- keys of the operation's environment are distinct.
pub get-operation_env :
    (global own : Option (Map String)) (id k : String)
    → IsDistinct (Map.keys (env_of own))
    → Map.get k (operation_env global own id) ≡ (
        if str_eq "NOSANA_ID" k
        then some id
        else or_value (Map.get k (env_of own)) (Map.get k (env_of global)))
unfolding operation_env
get-operation_env global own id k d = ground (
  arith,
  Map.get-set "NOSANA_ID" k id (spread (env_of global) (env_of own)),
  get-spread k (env_of global) (env_of own) d,
)

-- The stop of a volume operation never changes the volumes, if the runtime leaves them as they are
-- when it is asked to delete one that is not there.
pub volume_stop-same :
    {D : Type 0} (docker : Volumes D) (id name : String) (d : D)
    → ((v : String) (s : D) → docker.has_volume v s ≡ false → docker.delete_volume v s ≡ ok s)
    → volume_stop docker id name d ≡ ok d
unfolding volume_stop
volume_stop-same docker id name d absent =
    let volume = concat id (concat "-" name) in
    elim (Bool-cases (docker.has_volume volume d)) [
      | inl h ↦ rw h refl
      | inr h ↦ rw h (absent volume d h)
    ]

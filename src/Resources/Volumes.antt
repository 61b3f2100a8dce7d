-- ===== src/Resources/Volumes.antt =====
-- NodeManager/node/resource/volume/volumeManager.ts, with the volume table of NodeRepository.ts,
-- and `getResourceVolumes` of resourceManager.ts. Progress bars, logs and the errors that a
-- download reports to the operation's state are left out.
use nosana_node.Base.{
  String, str_eq, ℕ, Bool, true, false, ◌||◌, ◌&&◌, not, Option, none, some, List, [], ◌∷◌, map,
  if◌then◌else◌, contains, is_some, Result, ok, err, ◌>>=◌,
}
use nosana_node.Base.Map
use nosana_node.Base.Map.{Map}
use nosana_node.Literals.{is_empty_text}
use nosana_node.Resources.{
  Docker, Resource, s3, hf, is_stale, next_usage, includes, replace_first, given,
  create_resource_name, old_bucket, nosana_bucket,
}

-- `VolumeResource`; a flag that is missing is false.
pub record VolumeResource : Type 0 where
  pub volume : String
  pub required : Bool
  pub last_used : ℕ
  pub usage : ℕ
  pub pending : Bool

pub record VolumeManager (D : Type 0) : Type 0 where
  pub fetched : Bool
  pub market_required_volumes : List Resource
  pub volumes : Map VolumeResource
  pub host : D

abbrev pub names_resource : String → List Resource → Bool
names_resource name [] = false
names_resource name (r ∷ rs) = str_eq (create_resource_name r) name || names_resource name rs

abbrev pub is_pending : Option VolumeResource → Bool
is_pending none = false
is_pending (some entry) = entry.pending

-- `volume` of an entry, if it is there and not empty.
abbrev pub volume_of : Option VolumeResource → Option String
volume_of none = none
volume_of (some entry) = if is_empty_text entry.volume then none else some entry.volume

abbrev pub usage_of : Option VolumeResource → Option ℕ
usage_of none = none
usage_of (some entry) = some entry.usage

abbrev pub is_ok {ℓ κ} : {E : Type ℓ} {A : Type κ} → Result E A → Bool
is_ok (err e) = false
is_ok (ok a) = true

-- `{ url: bucket.url }` for each bucket
abbrev pub parts_of : Resource → List Resource
parts_of (s3 url buckets) =
    if given url then s3 url buckets ∷ [] else map (λ b. s3 (some b) []) buckets
parts_of r = r ∷ []

-- `resource.type === 'HF' && !resource.repo`
abbrev pub lacks_repo : Resource → Bool
lacks_repo (hf repo revision files url) = not (given repo)
lacks_repo r = false

module _ {D : Type 0} (docker : Docker D) (now : ℕ) where
  abbrev Step : Type 0
  Step = Result (String × VolumeManager D) (VolumeManager D)

  -- All fields are given, so this is `updateVolumeResource`.
  abbrev pub write_entry : String → VolumeResource → VolumeManager D → VolumeManager D
  write_entry name entry m = record m { volumes = Map.set name entry m.volumes }

  abbrev pub forget : String → VolumeManager D → VolumeManager D
  forget name m = record m { volumes = Map.delete name m.volumes }

  -- `setVolume`
  unfoldable pub set_volume : String → String → VolumeManager D → VolumeManager D
  set_volume name volume m =
      write_entry name
        (record {
          volume = volume;
          required = names_resource name m.market_required_volumes;
          last_used = now;
          usage = next_usage (usage_of (Map.get name m.volumes));
          pending = false;
        })
        m

  -- The end of a download that failed: the volume goes, and its entry with it if that works.
  unfoldable pub clean_up : String → String → VolumeManager D → VolumeManager D
  clean_up volume name m = elim (docker.delete_volume volume m.host) [
    | err message ↦ m
    | ok host ↦ forget name (record m { host = host })
  ]

  -- The `try` of `runResourceManagerContainer`, with its clean-up.
  unfoldable pub follow_download : String → String → Resource → VolumeManager D → Step
  follow_download volume name args m = elim (docker.download volume args m.host) [
    | err (message, host) ↦ err (message, clean_up volume name (record m { host = host }))
    | ok host ↦ ok (record m { host = host })
  ]

  -- `runResourceManagerContainer`. A container that does not start throws before the `try`, so that
  -- nothing is cleaned up.
  unfoldable pub run_resource_manager_container :
      String → String → Resource → VolumeManager D → Step
  run_resource_manager_container volume name args m =
      elim (docker.run_container volume args m.host) [
        | err (message, host) ↦ err (message, record m { host = host })
        | ok host ↦ follow_download volume name args (record m { host = host })
      ]

  -- The downloads of a resource: one for each bucket.
  unfoldable pub download_all : String → String → List Resource → VolumeManager D → Step
  download_all volume name [] m = ok m
  download_all volume name (part ∷ parts) m =
      run_resource_manager_container volume name part m >>= download_all volume name parts

  -- The volume of a resource, created and recorded as pending if there is none.
  unfoldable pub open_volume :
      String → VolumeManager D → Result (String × VolumeManager D) (String × VolumeManager D)
  open_volume name m = elim (volume_of (Map.get name m.volumes)) [
    | some volume ↦ ok (volume, m)
    | none ↦ elim (docker.create_volume m.host) [
      | err message ↦ err (message, m)
      | ok (volume, host) ↦ ok (
        volume,
        write_entry name
            (record {
              volume = volume;
              required = names_resource name m.market_required_volumes;
              last_used = now;
              usage = 0;
              pending = true;
            })
            (record m { host = host }),
      )
    ]
  ]

  -- `createRemoteVolume`
  unfoldable pub create_remote_volume :
      Resource → VolumeManager D → Result (String × VolumeManager D) (String × VolumeManager D)
  create_remote_volume resource m =
      let name = create_resource_name resource in
      if lacks_repo resource
      then err ("missing repo for HF resource", m)
      else open_volume name m >>= λ opened.
          download_all opened.0 name (parts_of resource) opened.1 >>= λ done.
          ok (opened.0, set_volume name opened.0 done)

  -- One round of the loop over the market's resources: an entry that is missing or pending.
  unfoldable pub pull_volume : Resource → VolumeManager D → Step
  pull_volume r m =
      let saved = Map.get (create_resource_name r) m.volumes in
      if not (is_some saved) || is_pending saved
      then (create_remote_volume r m >>= λ made. ok made.1)
      else ok m

  unfoldable pub pull_loop : List Resource → VolumeManager D → Step
  pull_loop [] m = ok m
  pull_loop (r ∷ rs) m = pull_volume r m >>= pull_loop rs

  -- The resource manager's own image.
  unfoldable pub pull_helper : String → VolumeManager D → Step
  pull_helper helper m =
      if docker.has_image helper m.host then ok m else elim (docker.pull_image helper none m.host) [
        | err message ↦ err (message, m)
        | ok host ↦ ok (record m { host = host })
      ]

  -- `pullMarketRequiredVolumes`; `helper` is the image of the resource manager.
  unfoldable pub pull_market_required_volumes : String → List Resource → VolumeManager D → Step
  pull_market_required_volumes helper resources m =
      pull_helper helper (record m { fetched = true; market_required_volumes = resources })
      >>= pull_loop resources

  -- `hasVolume`
  unfoldable pub has_volume : Resource → VolumeManager D → Bool × VolumeManager D
  has_volume resource m =
      let name = create_resource_name resource in
      elim (volume_of (Map.get name m.volumes)) [
        | none ↦ (false, m)
        | some volume ↦
            if docker.has_volume volume m.host then (true, m) else (false, forget name m)
      ]

  -- `dbVolume.find((vol) => vol[1].volume === Name)`
  unfoldable pub find_volume : String → Map VolumeResource → Option (String × VolumeResource)
  find_volume volume [] = none
  find_volume volume ((name, entry) ∷ entries) =
      if str_eq entry.volume volume then some (name, entry) else find_volume volume entries

  abbrev forget_entry : Option (String × VolumeResource) → VolumeManager D → VolumeManager D
  forget_entry none m = m
  forget_entry (some (name, entry)) m = forget name m

  abbrev pub is_required : Option (String × VolumeResource) → Bool
  is_required none = false
  is_required (some (name, entry)) = entry.required

  -- The loop of `pruneVolumes`, over the entries as they were before it.
  unfoldable pub prune_loop : Map VolumeResource → List String → VolumeManager D → Step
  prune_loop entries [] m = ok m
  prune_loop entries (volume ∷ rest) m =
      let entry = find_volume volume entries in
      (if is_required entry then ok m else elim (docker.delete_volume volume m.host) [
        | err message ↦ err (message, m)
        | ok host ↦ ok (forget_entry entry (record m { host = host }))
      ])
      >>= prune_loop entries rest

  -- `pruneVolumes`
  unfoldable pub prune_volumes : VolumeManager D → Step
  prune_volumes m = prune_loop m.volumes (docker.list_volumes m.host) m

  -- The renaming of the entries of the old bucket.
  unfoldable pub rename_loop : Map VolumeResource → Map VolumeResource → Map VolumeResource
  rename_loop [] volumes = volumes
  rename_loop ((name, entry) ∷ entries) volumes = rename_loop entries (
      if includes old_bucket name
      then Map.delete name (Map.set (replace_first old_bucket nosana_bucket name) entry volumes)
      else volumes)

  abbrev pub is_protected : String → VolumeResource → VolumeManager D → Bool
  is_protected name entry m =
      (not m.fetched && entry.required) || names_resource name m.market_required_volumes

  -- One round of the second loop of `resyncResourcesDB`; `saved` are the volumes of the runtime. A
  -- volume that cannot be deleted is left, with its entry: its error has the field
  -- that the handler reads.
  unfoldable pub resync_volume :
      List String → String × VolumeResource → VolumeManager D → VolumeManager D
  resync_volume saved (name, entry) m =
      if not (contains entry.volume saved)
      then forget name m
      else if is_protected name entry m
      then m
      else if is_stale now entry.last_used
      then elim (docker.delete_volume entry.volume m.host) [
        | err message ↦ m
        | ok host ↦ forget name (record m { host = host })
      ]
      else m

  unfoldable pub resync_loop : List String → Map VolumeResource → VolumeManager D → VolumeManager D
  resync_loop saved [] m = m
  resync_loop saved (e ∷ entries) m = resync_loop saved entries (resync_volume saved e m)

  -- `resyncResourcesDB`
  unfoldable pub resync_resources_db : VolumeManager D → VolumeManager D
  resync_resources_db m =
      let renamed = record m { volumes = rename_loop m.volumes m.volumes } in
      resync_loop (docker.list_volumes m.host) renamed.volumes renamed

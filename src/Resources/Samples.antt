-- ===== src/Resources/Samples.antt =====
-- Runs of the managers on a small container runtime.
use nosana_node.Base.{
  String, str_eq, ℕ, ◌≡◌, refl, true, false, Bool, none, some, List, [], ◌∷◌, contains, remove, ok,
  err, recover, arith, sym, ok_inj, contains-remove,
}
use nosana_node.Base.Map
use nosana_node.Base.Map.{Map}
use nosana_node.Resources.{Docker, RequiredImage, ollama, create_resource_name}
use nosana_node.Resources.Images.{
  ImageResource, ImageManager, pull_market_required_images, prune_images, resync_images_db,
}
use nosana_node.Resources.Volumes.{
  VolumeManager, create_remote_volume, open_volume, download_all, run_resource_manager_container,
  follow_download, clean_up,
}
use nosana_node.Resources.Downloads.{create_remote_volume_complete, is_complete, left_by}

-- The names of the images are all there is of the host.
abbrev docker : Docker (List String)
docker = record {
  has_image = contains;
  pull_image = λ name auth host. ok (name ∷ host);
  list_images = λ host.
      record { id = "1"; repo_tags = some ("b:latest" ∷ []) }
      ∷ record { id = "2"; repo_tags = some ("a:1" ∷ []) }
      ∷ [];
  delete_image = λ name host. ok (remove name host);
  create_volume = λ host. ok ("v", host);
  has_volume = λ name host. true;
  list_volumes = λ host. [];
  delete_volume = λ name host. err "in use";
  run_container = λ volume part host. ok host;
  download = λ volume part host. err ("exit code 1", host);
}

abbrev entry : Bool → ℕ → ImageResource
entry required used = record {
  required = required;
  is_private = false;
  last_used = used;
  usage = 1;
}

abbrev start : ImageManager (List String)
start = record {
  fetched = true;
  market_required_images = [];
  images = ("a:1", entry false 0) ∷ ("b", entry true 90000000) ∷ [];
  host = "a:1" ∷ "b" ∷ [];
}

delete_image-apart :
    (name other : String) (host next : List String)
    → docker.delete_image name host ≡ ok next
    → str_eq name other ≡ false
    → docker.has_image other next ≡ docker.has_image other host
delete_image-apart name other host next h n =
    rw (sym (ok_inj h)) (ground (arith, contains-remove other name host, n))

abbrev synced : ImageManager (List String)
synced = recover (resync_images_db docker 100000000 start) start

abbrev wanted : List RequiredImage
wanted = record { name = "a:1"; auth = none } ∷ []

abbrev pulled : ImageManager (List String)
pulled = recover (pull_market_required_images docker 5 wanted start) start

abbrev pruned : ImageManager (List String)
pruned = recover (prune_images docker 5 pulled) pulled

abbrev no_volumes : VolumeManager (List String)
no_volumes = record { fetched = false; market_required_volumes = []; volumes = []; host = [] }

abbrev failed_volumes : VolumeManager (List String)
failed_volumes = left_by (λ p. p.1) (create_remote_volume docker 7 (ollama "m") no_volumes)

create_remote_volume_complete_example :
    (is_complete (Map.get "m" failed_volumes.volumes) ≡ false)
    × (Map.get "n" failed_volumes.volumes ≡ none)
unfolding create_remote_volume open_volume download_all run_resource_manager_container
    follow_download clean_up create_resource_name Map.get Map.set Map.delete
create_remote_volume_complete_example =
    create_remote_volume_complete docker 7 (ollama "m") no_volumes "n" refl

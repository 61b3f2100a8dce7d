-- ===== src/Resources/Images.antt =====
-- NodeManager/node/resource/image/imageManager.ts, with the image table of NodeRepository.ts.
use Prim.Native.String.{◌++◌ as concat}
use nosana_node.Base.{
  String, ℕ, Bool, true, false, ◌||◌, ◌&&◌, not, Option, none, some, List, [], ◌∷◌, map,
  if◌then◌else◌, contains, is_some, or_else, Result, ok, err, ◌>>=◌,
}
use nosana_node.Base.Map
use nosana_node.Base.Map.{Map}
use nosana_node.Resources.{Docker, CachedImage, RequiredImage, is_stale, next_usage, includes}

-- `ResourceHistory`; a flag that is missing is false.
pub record ImageResource : Type 0 where
  pub required : Bool
  pub is_private : Bool
  pub last_used : ℕ
  pub usage : ℕ

pub record ImageManager (D : Type 0) : Type 0 where
  pub fetched : Bool
  pub market_required_images : List String
  pub images : Map ImageResource
  pub host : D

abbrev blank : ImageResource
blank = record { required = false; is_private = false; last_used = 0; usage = 0 }

-- `updateImageResource`, with what `Object.assign` does.
unfoldable pub update_image_resource :
    String → (ImageResource → ImageResource) → Map ImageResource → Map ImageResource
update_image_resource name assign images =
    Map.set name (assign (or_else (Map.get name images) blank)) images

-- `image` with `:latest` where it has no tag
abbrev pub with_tag : String → String
with_tag image = concat image (if includes ":" image then "" else ":latest")

abbrev pub possible_options : String → List String
possible_options tag =
    tag
    ∷ concat "docker.io/" tag
    ∷ concat "docker.io/library/" tag
    ∷ concat "registry.hub.docker.com//" tag
    ∷ concat "registry.hub.docker.com/library/" tag
    ∷ []

abbrev some_in : List String → List String → Bool
some_in [] options = false
some_in (tag ∷ tags) options = contains tag options || some_in tags options

-- `repoTagsContainsImage`
unfoldable pub repo_tags_contains_image : String → Option (List String) → Bool
repo_tags_contains_image image none = false
repo_tags_contains_image image (some tags) = some_in tags (possible_options (with_tag image))

-- The entry that `pruneImages` finds for an image: the first with a name for it.
unfoldable pub find_entry :
    Option (List String) → Map ImageResource → Option (String × ImageResource)
find_entry tags [] = none
find_entry tags ((name, entry) ∷ images) =
    if repo_tags_contains_image name tags then some (name, entry) else find_entry tags images

abbrev pub is_required : Option (String × ImageResource) → Bool
is_required none = false
is_required (some (name, entry)) = entry.required

abbrev pub usage_of : Option ImageResource → Option ℕ
usage_of none = none
usage_of (some entry) = some entry.usage

module _ {D : Type 0} (docker : Docker D) (now : ℕ) where
  -- What a call to the runtime leaves, with the manager as it is where it throws.
  abbrev pub on_host :
      Result String D → ImageManager D → Result (String × ImageManager D) (ImageManager D)
  on_host (err message) m = err (message, m)
  on_host (ok host) m = ok (record m { host = host })

  -- The marking of an image that the market requires.
  unfoldable pub mark_required : RequiredImage → ImageManager D → ImageManager D
  mark_required image m =
      let known = Map.get image.name m.images in
      record m {
        images =
            update_image_resource image.name
              (λ entry. record entry {
                required = true;
                is_private = is_some image.auth;
                last_used = elim known [ none ↦ now | some e ↦ e.last_used ];
                usage = or_else (usage_of known) 1;
              })
              m.images;
      }

  unfoldable pub pull_loop :
      List RequiredImage → ImageManager D → Result (String × ImageManager D) (ImageManager D)
  pull_loop [] m = ok m
  pull_loop (image ∷ rest) m =
      (if docker.has_image image.name m.host
        then ok m
        else on_host (docker.pull_image image.name image.auth m.host) m)
      >>= λ pulled. pull_loop rest (mark_required image pulled)

  -- `pullMarketRequiredImages`
  unfoldable pub pull_market_required_images :
      List RequiredImage → ImageManager D → Result (String × ImageManager D) (ImageManager D)
  pull_market_required_images required m =
      pull_loop required
        (record m { fetched = true; market_required_images = map (λ image. image.name) required })

  abbrev pub forget_entry : Option (String × ImageResource) → ImageManager D → ImageManager D
  forget_entry none m = m
  forget_entry (some (name, entry)) m = record m { images = Map.delete name m.images }

  -- One round of `pruneImages`.
  unfoldable pub prune_image :
      CachedImage → ImageManager D → Result (String × ImageManager D) (ImageManager D)
  prune_image cached m =
      let entry = find_entry cached.repo_tags m.images in
      if is_required entry
      then ok m
      else on_host (docker.delete_image cached.id m.host) m >>= λ deleted.
          ok (forget_entry entry deleted)

  unfoldable pub prune_loop :
      List CachedImage → ImageManager D → Result (String × ImageManager D) (ImageManager D)
  prune_loop [] m = ok m
  prune_loop (cached ∷ rest) m = prune_image cached m >>= prune_loop rest

  -- `pruneImages`
  unfoldable pub prune_images : ImageManager D → Result (String × ImageManager D) (ImageManager D)
  prune_images m = prune_loop (docker.list_images m.host) m

  -- Whether the market needs the image, as far as the node knows.
  abbrev pub is_protected : String → ImageResource → ImageManager D → Bool
  is_protected name entry m =
      (not m.fetched && entry.required) || contains name m.market_required_images

  abbrev pub is_expired : ImageResource → Bool
  is_expired entry = is_stale now entry.last_used || entry.is_private

  abbrev pub forget : String → ImageManager D → ImageManager D
  forget name m = record m { images = Map.delete name m.images }

  -- One round of `resyncImagesDB`.
  unfoldable pub resync_image :
      String × ImageResource → ImageManager D → Result (String × ImageManager D) (ImageManager D)
  resync_image (name, entry) m =
      if not (docker.has_image name m.host)
      then ok (forget name m)
      else if is_protected name entry m
      then ok m
      else if is_expired entry
      then (on_host (docker.delete_image name m.host) m >>= λ deleted. ok (forget name deleted))
      else ok m

  unfoldable pub resync_loop :
      Map ImageResource → ImageManager D → Result (String × ImageManager D) (ImageManager D)
  resync_loop [] m = ok m
  resync_loop (e ∷ entries) m = resync_image e m >>= resync_loop entries

  -- `resyncImagesDB`
  unfoldable pub resync_images_db :
      ImageManager D → Result (String × ImageManager D) (ImageManager D)
  resync_images_db m = resync_loop m.images m

  -- `setImage`
  unfoldable pub set_image : String → Bool → ImageManager D → ImageManager D
  set_image image is_private m = record m {
    images =
        update_image_resource image
          (λ entry. record entry {
            last_used = now;
            usage = next_usage (usage_of (Map.get image m.images));
            is_private = is_private;
          })
          m.images;
  }

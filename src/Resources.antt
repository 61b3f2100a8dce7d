-- ===== src/Resources.antt =====
-- NodeManager/node/resource: what the images and volumes of the market and of the jobs share. The
-- container runtime is a parameter, over its own state; a call that throws gives a message. The
-- managers are in Resources/Images and Resources/Volumes, the tables of NodeRepository with them.
pub mod Images
pub mod Volumes
pub mod Resync
pub mod Downloads
pub mod Pruning
mod Samples
use Prim.Native.String.{◌++◌ as concat}
use nosana_node.Base.{
  String, str_eq, ℕ, ◌-◌, ◌+◌, Bool, true, false, ◌||◌, not, Option, none, some, List, [], ◌∷◌, map,
  if◌then◌else◌, ltb, is_some, or_else, Result, ok, err, ◌>>=◌,
}
use nosana_node.Literals.{strip, is_empty_text}

pub record DockerAuth : Type 0 where
  pub server : Option String
  pub username : Option String
  pub password : Option String

-- `listImages`, as it is read.
pub record CachedImage : Type 0 where
  pub id : String
  pub repo_tags : Option (List String)

-- A remote resource: an S3 url or its buckets, a model of Hugging Face, or of Ollama.
pub data Resource : Type 0 where
  s3 : Option String → List String → Resource
  hf : Option String → Option String → Option (List String) → Option String → Resource
  ollama : String → Resource

-- `ContainerOrchestrationInterface`, as the managers call it. `run_container` creates and starts the
-- resource manager's container on a volume; `download` is what follows, to its removal: it has ended
-- with exit code 0 or throws.
pub record Docker (D : Type 0) : Type 0 where
  pub has_image : String → D → Bool
  pub pull_image : String → Option DockerAuth → D → Result String D
  pub list_images : D → List CachedImage
  pub delete_image : String → D → Result String D
  pub create_volume : D → Result String (String × D)
  pub has_volume : String → D → Bool
  pub list_volumes : D → List String
  pub delete_volume : String → D → Result String D
  pub run_container : String → Resource → D → Result (String × D) D
  pub download : String → Resource → D → Result (String × D) D

-- `hoursSinceDate(date) > 24`, in milliseconds
unfoldable pub is_stale : ℕ → ℕ → Bool
is_stale now date = ltb 86400000 ((now - date) + (date - now))

-- `usage + 1 || 1`, where the usage may be missing
abbrev pub next_usage : Option ℕ → ℕ
next_usage none = 1
next_usage (some n) = n + 1

-- `s.includes(p)`
unfoldable pub includes : String → String → Bool
includes p String.[] = is_empty_text p
includes p (String.◌∷◌ c s) = is_some (strip p (String.◌∷◌ c s)) || includes p s

-- `s.replace(p, q)`: the first occurrence.
unfoldable pub replace_first : String → String → String → String
replace_first p q String.[] = elim (strip p "") [ none ↦ "" | some rest ↦ concat q rest ]
replace_first p q (String.◌∷◌ c s) = elim (strip p (String.◌∷◌ c s)) [
  | some rest ↦ concat q rest
  | none ↦ String.◌∷◌ c (replace_first p q s)
]

abbrev pub nosana_bucket : String
nosana_bucket = "https://models.nosana.io"

abbrev pub old_bucket : String
old_bucket = "s3://nos-ai-models-qllsn32u"

-- `texts.join('-')`
unfoldable pub join_dash : List String → String
join_dash [] = ""
join_dash (s ∷ []) = s
join_dash (s ∷ ss) = concat s (concat "-" (join_dash ss))

-- A text that is there and is not empty.
abbrev pub given : Option String → Bool
given none = false
given (some s) = not (is_empty_text s)

abbrev pub text_or : String → Option String → String
text_or d none = d
text_or d (some s) = s

-- `createResourceName`. A missing repo reads as `undefined`.
unfoldable pub create_resource_name : Resource → String
create_resource_name (s3 url buckets) =
    if given url then replace_first old_bucket nosana_bucket (text_or "" url) else join_dash buckets
create_resource_name (hf repo revision files url) = concat (text_or "undefined" repo) (
    concat (if given revision then concat "-" (text_or "" revision) else "")
      (elim files [ none ↦ "" | some names ↦ concat "-" (join_dash names) ]))
create_resource_name (ollama model) = model

-- `normalizeMarketResources`, on one resource: the last field of `hf` is the url.
unfoldable pub normalize_market_resource : Resource → Resource
normalize_market_resource (hf repo revision files url) =
    if given repo || not (given url) then hf repo revision files url else hf url revision files url
normalize_market_resource r = r

unfoldable pub normalize_market_resources : List Resource → List Resource
normalize_market_resources rs = map normalize_market_resource rs

-- `MarketRequiredImage`
pub data MarketRequiredImage : Type 0 where
  bare : String → MarketRequiredImage
  described : String → DockerAuth → MarketRequiredImage

pub record RequiredImage : Type 0 where
  pub name : String
  pub auth : Option DockerAuth

-- `normalizeMarketImages`, on one image
unfoldable pub normalize_market_image : MarketRequiredImage → RequiredImage
normalize_market_image (bare name) = record { name = name; auth = none }
normalize_market_image (described name auth) =
    if given auth.username || given auth.password
    then record { name = name; auth = some auth }
    else record { name = name; auth = none }

unfoldable pub normalize_market_images : List MarketRequiredImage → List RequiredImage
normalize_market_images images = map normalize_market_image images

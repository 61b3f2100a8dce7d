-- ===== src/Collections.antt =====
-- NodeManager/node/task/globalStore: transformCollections.ts, finalizeEnv.ts and stanatizeArrays.ts,
-- the steps after the interpolation of an operation's arguments. `prepare_args` is their chain in
-- operations/runTaskManagerOperation.ts.
pub mod Markers
pub mod Env
pub mod Fuel
mod Samples
use mathlib.Core.Option
use Prim.Native.String.{◌++◌ as concat, count}
use nosana_node.Base.{
  String, ℕ, zero, suc, Bool, true, false, not, ◌&&◌, ◌||◌, Option, none, some, is_some, or_else,
  if◌then◌else◌, str_eq, Result, ok, err, ◌>>=◌,
}
use nosana_node.Json.{
  Value, null, bool, num, str, arr, obj, Items, nil, cons, Fields, end, field, Engine, get_field,
  set_field, text,
}
use nosana_node.Interpolate.{
  ArgsError, not_json, not_an_object, not_an_array, pair_not_an_object, pair_key_not_a_string,
  interpolate_operation,
}

-- The keys of `DefaultCollectionMarkers`.
pub data Marker : Type 0 where
  spread pairs : Marker

unfoldable pub get_marker : String → Option Marker
get_marker k =
    if str_eq k "__spread__" then some spread else if str_eq k "__pairs__" then some pairs else none

abbrev pub label : Marker → String
label spread = "__spread__"
label pairs = "__pairs__"

abbrev pub append_items : Items → Items → Items
append_items nil ys = ys
append_items (cons x xs) ys = cons x (append_items xs ys)

-- `v.every((item) => typeof item === 'string')`
abbrev pub all_strings : Items → Bool
all_strings nil = true
all_strings (cons (str s) xs) = all_strings xs
all_strings (cons v xs) = false

-- `v.join('')` of texts
unfoldable pub join : Items → String
join nil = ""
join (cons (str s) xs) = concat s (join xs)
join (cons v xs) = join xs

abbrev pub is_true : Option Value → Bool
is_true (some (bool true)) = true
is_true _ = false

-- `out[key] = value ?? ''`, for each item
abbrev pub pair_value : Option Value → Value
pair_value none = str ""
pair_value (some null) = str ""
pair_value (some v) = v

unfoldable pub from_pairs : Items → Fields → Result ArgsError Fields
from_pairs nil out = ok out
from_pairs (cons (obj fs) xs) out = elim (get_field "key" fs) [
  | some (str k) ↦ from_pairs xs (set_field k (pair_value (get_field "value" fs)) out)
  | _ ↦ err pair_key_not_a_string
]
from_pairs (cons v xs) out = err pair_not_an_object

abbrev pub as_object : Value → Result ArgsError Fields
as_object (obj fs) = ok fs
as_object v = err (not_an_object (label spread))

abbrev pub as_pairs : Value → Result ArgsError Fields
as_pairs (arr xs) = from_pairs xs end
as_pairs v = err (not_an_array (label pairs))

abbrev pub object_of : Marker → Value → Result ArgsError Fields
object_of spread v = as_object v
object_of pairs v = as_pairs v

-- The loop that writes a patch into the object.
unfoldable pub patch : Bool → Fields → Fields → Fields
patch overwrite end base = base
patch overwrite (field k v fs) base =
    patch overwrite fs
      (if overwrite || not (is_some (get_field k base)) then set_field k v base else base)

-- `out.push(…)` and the rest of the loop, for one element and for the items of a marker.
unfoldable pub push_item : Result ArgsError Value → Result ArgsError Items → Result ArgsError Items
push_item seen rest = seen >>= λ w. rest >>= λ ys. ok (cons w ys)

unfoldable pub push_all : Result ArgsError Items → Result ArgsError Items → Result ArgsError Items
push_all items rest = items >>= λ ys. rest >>= λ zs. ok (append_items ys zs)

-- An element that is an object, which has a marker's items or none.
unfoldable pub push_items :
    Option (Result ArgsError Items)
    → Result ArgsError Value
    → Result ArgsError Items
    → Result ArgsError Items
push_items (some items) seen rest = push_all items rest
push_items none seen rest = push_item seen rest

-- `if (!isMarkerKey(k)) base[k] = visit(v)`, and the rest of the loop.
unfoldable pub keep_field :
    Option Marker
    → String
    → Result ArgsError Value
    → Result ArgsError Fields
    → Result ArgsError Fields
keep_field (some marker) k seen rest = rest
keep_field none k seen rest = seen >>= λ w. rest >>= λ gs. ok (field k w gs)

-- The items of a field that is a marker, or those of the fields after it.
unfoldable pub first_items :
    Option Marker
    → Result ArgsError Items
    → Result ArgsError Items
    → Option (Result ArgsError Items)
    → Option (Result ArgsError Items)
first_items (some spread) spreading pairing rest = some spreading
first_items (some pairs) spreading pairing rest = some pairing
first_items none spreading pairing rest = rest

unfoldable pub chunked_items :
    Bool → Result ArgsError Items → Result ArgsError Items → Result ArgsError Items
chunked_items true joined flat = joined
chunked_items false joined flat = flat

module _ (js : Engine) where
  -- `JSON.parse`, with the error that the handlers throw for it.
  unfoldable pub parse_as : Marker → String → Result ArgsError Value
  parse_as marker s = elim (js.parse s) [ none ↦ err (not_json (label marker)) | some v ↦ ok v ]

  -- `objectHandler`
  unfoldable pub object_handler : Marker → Value → Result ArgsError Fields
  object_handler marker (str s) = parse_as marker s >>= object_of marker
  object_handler marker v = object_of marker v

  -- The loop over the markers of an object.
  unfoldable pub apply_markers : Bool → Fields → Fields → Result ArgsError Fields
  apply_markers overwrite end base = ok base
  apply_markers overwrite (field k raw fs) base = elim (get_marker k) [
    | none ↦ apply_markers overwrite fs base
    | some marker ↦
        object_handler marker raw >>= λ p. apply_markers overwrite fs (patch overwrite p base)
  ]

  module _ (overwrite : Bool) where
    -- `visit`. `texts` reads the items of a marker in an array whose value is a text.
    unfoldable mutual
      pub visit : (Marker → String → Result ArgsError Items) → Value → Result ArgsError Value
      visit texts (arr xs) = visit_elements texts xs >>= λ ys. ok (arr ys)
      visit texts (obj fs) =
          visit_fields texts fs >>= apply_markers overwrite fs >>= λ gs. ok (obj gs)
      visit texts v = ok v

      -- The fields that are no markers.
      pub visit_fields :
          (Marker → String → Result ArgsError Items) → Fields → Result ArgsError Fields
      visit_fields texts end = ok end
      visit_fields texts (field k v fs) =
          let seen = visit texts v in
          let rest = visit_fields texts fs in keep_field (get_marker k) k seen rest

      -- The loop over an array: an element that is an object with a marker gives its items.
      pub visit_elements :
          (Marker → String → Result ArgsError Items) → Items → Result ArgsError Items
      visit_elements texts nil = ok nil
      visit_elements texts (cons (obj fs) xs) =
          let seen = visit texts (obj fs) in
          let rest = visit_elements texts xs in
          push_items (marker_items texts (is_true (get_field "chunked" fs)) fs) seen rest
      visit_elements texts (cons v xs) = push_item (visit texts v) (visit_elements texts xs)

      -- The visited items of the first marker of an object, if it has one.
      pub marker_items :
          (Marker → String → Result ArgsError Items)
          → Bool
          → Fields
          → Option (Result ArgsError Items)
      marker_items texts chunked end = none
      marker_items texts chunked (field k raw fs) =
          let spreading = array_items texts spread chunked raw in
          let pairing = array_items texts pairs chunked raw in
          let rest = marker_items texts chunked fs in
          first_items (get_marker k) spreading pairing rest

      -- `arrayHandler`, and the visit of each item.
      pub array_items :
          (Marker → String → Result ArgsError Items)
          → Marker
          → Bool
          → Value
          → Result ArgsError Items
      array_items texts marker chunked (str s) = texts marker s
      array_items texts spread chunked (arr xs) =
          let flat = visit_flat texts xs in
          chunked_items (chunked && all_strings xs) (texts spread (join xs)) flat
      array_items texts pairs chunked (arr xs) = visit_each texts xs
      array_items texts marker chunked v = err (not_an_array (label marker))

      -- `.map(visit)`
      pub visit_each : (Marker → String → Result ArgsError Items) → Items → Result ArgsError Items
      visit_each texts nil = ok nil
      visit_each texts (cons v xs) = push_item (visit texts v) (visit_each texts xs)

      -- `.flat().map(visit)`
      pub visit_flat : (Marker → String → Result ArgsError Items) → Items → Result ArgsError Items
      visit_flat texts nil = ok nil
      visit_flat texts (cons (arr ys) xs) = push_all (visit_each texts ys) (visit_flat texts xs)
      visit_flat texts (cons v xs) = push_item (visit texts v) (visit_flat texts xs)

    abbrev pub parsed_items :
        (Marker → String → Result ArgsError Items) → Marker → Value → Result ArgsError Items
    parsed_items texts spread (arr xs) = visit_flat texts xs
    parsed_items texts pairs (arr xs) = visit_each texts xs
    parsed_items texts marker v = err (not_an_array (label marker))

    -- The items of a text, which may have texts with markers once more, on fuel.
    unfoldable pub text_items : ℕ → Marker → String → Result ArgsError Items
    text_items zero marker s = ok nil
    text_items (suc fuel) marker s = parse_as marker s >>= parsed_items (text_items fuel) marker

    -- `transformCollections`, on the arguments
    unfoldable pub transform_collections : Value → Result ArgsError Value
    transform_collections args = visit (λ marker s. text_items (suc (count s)) marker s) args

  -- `toEnvString`
  abbrev pub to_env_string : Value → String
  to_env_string null = ""
  to_env_string (bool b) = text (bool b)
  to_env_string (num n) = n
  to_env_string (str s) = s
  to_env_string v = js.stringify v

  unfoldable pub env_strings : Fields → Fields
  env_strings end = end
  env_strings (field k v fs) = field k (str (to_env_string v)) (env_strings fs)

  abbrev pub with_env : Option Value → Fields → Fields
  with_env (some (obj env)) fs = set_field "env" (obj (env_strings env)) fs
  with_env _ fs = fs

  -- `finalizeEnvOnOperation`, on the arguments
  unfoldable pub finalize_env : Value → Value
  finalize_env (obj fs) = obj (with_env (get_field "env" fs) fs)
  finalize_env v = v

abbrev pub is_removal : Value → Bool
is_removal (str s) = str_eq s "__remove-if-empty__"
is_removal _ = false

-- The array without its first `__remove-if-empty__`, or `none` where there is no such element.
unfoldable pub without_removal : Items → Option Items
without_removal nil = none
without_removal (cons v xs) =
    if is_removal v then some xs else Option.map (λ ys. cons v ys) (without_removal xs)

-- What becomes of an argument: `none` for one that is deleted.
unfoldable pub sanitized : Value → Option Value
sanitized (arr xs) = elim (without_removal xs) [
  | none ↦ some (arr xs)
  | some nil ↦ none
  | some (cons v ys) ↦ some (arr (cons v ys))
]
sanitized v = some v

abbrev pub kept : String → Option Value → Fields → Fields
kept k none fs = fs
kept k (some v) fs = field k v fs

unfoldable pub sanitize_fields : Fields → Fields
sanitize_fields end = end
sanitize_fields (field k v fs) = kept k (sanitized v) (sanitize_fields fs)

-- `stanatizeArrays`, on the arguments
unfoldable pub stanatize_arrays : Value → Value
stanatize_arrays (obj fs) = obj (sanitize_fields fs)
stanatize_arrays v = v

-- The arguments that the provider is given.
unfoldable pub prepare_args : Engine → Fields → Fields → Value → Result ArgsError Value
prepare_args js globals buckets args =
    interpolate_operation js globals buckets args >>= transform_collections js true >>= λ v.
    ok (stanatize_arrays (finalize_env js v))

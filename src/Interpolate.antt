-- ===== src/Interpolate.antt =====
-- NodeManager/node/task/globalStore/interpolateOperation.ts: the literals in the arguments of an
-- operation are replaced by what the stores hold for them, before the operation runs. `global` is
-- `globalStore` and `buckets` is `globalOpStore`, whose buckets hold host, results and endpoints.
mod Texts
pub mod Plain
pub mod Tokens
pub mod Unresolved
mod Samples
use mathlib.Core.Option
use Prim.Native.Char.{code}
use Prim.Native.String.{count}
use nosana_node.Base.{
  String, ℕ, zero, suc, ◌==◌, Bool, true, false, ◌||◌, Option, none, some, List, [], ◌∷◌, ◌++◌,
  if◌then◌else◌, str_eq, or_else, Result, ok, err, ◌>>=◌,
}
use nosana_node.Json.{
  Value, null, bool, num, str, arr, obj, Items, nil, cons, Fields, end, field, Engine, to_items,
  get_field, present, get_property, join_space, split_dots,
}
use nosana_node.Literals.{
  Literal, ops, global, variable, match_literal, match_variable, exact, has_match, replace_from,
}

-- What is thrown, without the wording of the messages.
pub data ArgsError : Type 0 where
  unresolved : Literal → ArgsError
  literals_remain : ArgsError
  not_json : String → ArgsError
  not_an_object : String → ArgsError
  not_an_array : String → ArgsError
  pair_not_an_object : ArgsError
  pair_key_not_a_string : ArgsError

abbrev starts_as_json : String → Bool
starts_as_json String.[] = false
starts_as_json (String.◌∷◌ c s) = code c == b'[' || code c == b'{'

-- `out.push(...tokens(el))` for each element; `strings` is what becomes of a text.
unfoldable mutual
  pub tokens : (String → List Value) → Value → List Value
  tokens strings null = []
  tokens strings (bool b) = bool b ∷ []
  tokens strings (num n) = num n ∷ []
  tokens strings (str s) = strings s
  tokens strings (arr xs) = items_tokens strings xs
  tokens strings (obj fs) = obj fs ∷ []

  pub items_tokens : (String → List Value) → Items → List Value
  items_tokens strings nil = []
  items_tokens strings (cons v xs) = tokens strings v ++ items_tokens strings xs

-- The same for a value that `JSON.parse` gave, which is not parsed once more.
abbrev pub parsed_tokens : (String → List Value) → Value → List Value
parsed_tokens strings (str s) = str s ∷ []
parsed_tokens strings v = tokens strings v

module _ (js : Engine) where
  -- `parseJsonIfLooksLike` of a text: `none` where it gives the text back.
  unfoldable pub parse_if_json : String → Option Value
  parse_if_json s = let t = js.trim s in if starts_as_json t then js.parse t else none

  abbrev pub parse_value : Value → Value
  parse_value (str s) = or_else (parse_if_json s) (str s)
  parse_value v = v

  abbrev pub parse_items : Items → Items
  parse_items nil = nil
  parse_items (cons v xs) = cons (parse_value v) (parse_items xs)

  -- The parsing of an array's elements, or of the value itself.
  abbrev pub parse_each : Value → Value
  parse_each (arr xs) = arr (parse_items xs)
  parse_each v = parse_value v

  -- A text that parses is spread, and so are the texts in what it parses to, on fuel.
  unfoldable pub string_tokens : ℕ → String → List Value
  string_tokens zero s = str s ∷ []
  string_tokens (suc fuel) s = elim (parse_if_json s) [
    | none ↦ str s ∷ []
    | some v ↦ parsed_tokens (string_tokens fuel) v
  ]

  -- `valueToArrayTokens`
  unfoldable pub value_to_array_tokens : Value → List Value
  value_to_array_tokens v = tokens (λ s. string_tokens (suc (count s)) s) v

  -- `valueToSpaceString`
  unfoldable pub value_to_space_string : Value → String
  value_to_space_string v = join_space (value_to_array_tokens v)

  -- The loop over the segments of a path.
  unfoldable pub walk : List String → Value → Option Value
  walk [] v = some v
  walk (k ∷ ks) v = elim (present (get_property js.decimal k v)) [
    | none ↦ none
    | some next ↦ walk ks next
  ]

  -- `getByPathStrict`; a host that is `null` counts as absent, as it does for each caller.
  unfoldable pub get_by_path_strict : Fields → String → String → Option Value
  get_by_path_strict buckets id path = elim (present (get_field id buckets)) [
    | none ↦ none
    | some bucket ↦
        if str_eq path "host"
        then present (get_property js.decimal "host" bucket)
        else walk (split_dots path) bucket
  ]

  -- `getGlobalByPath`
  unfoldable pub get_global_by_path : Fields → String → String → Option Value
  get_global_by_path globals key path = elim (present (get_field key globals)) [
    | none ↦ none
    | some v ↦ walk (split_dots path) v
  ]

  abbrev is_empty_string : Value → Bool
  is_empty_string (str String.[]) = true
  is_empty_string _ = false

  -- A global that is there and is not the empty text.
  abbrev filled : Option Value → Option Value
  filled none = none
  filled (some v) = if is_empty_string v then none else some v

  module _ (globals buckets : Fields) where
    -- What the stores hold for a literal. A store has its own names only: the properties that an
    -- object of the code inherits (`constructor`, `toString`), which a path finds too, are left out.
    unfoldable pub lookup : Literal → Option Value
    lookup (ops id path) = get_by_path_strict buckets id path
    lookup (global key path) = filled (get_global_by_path globals key path)
    lookup (variable key) = filled (present (get_field key globals))

    -- A lookup, or the error that names the literal.
    unfoldable pub resolve : Literal → Result ArgsError Value
    resolve literal = elim (lookup literal) [ none ↦ err (unresolved literal) | some v ↦ ok v ]

    -- `resolveRawIfExact`, with `none` for no match.
    unfoldable pub resolve_raw_if_exact : String → Result ArgsError (Option Value)
    resolve_raw_if_exact s = elim (exact match_literal s) [
      | some literal ↦ resolve literal >>= λ v. ok (some (parse_each v))
      | none ↦ elim (exact match_variable s) [
        | some literal ↦ resolve literal >>= λ v. ok (some v)
        | none ↦ ok none
      ]
    ]

    unfoldable pub render : Literal → Result ArgsError String
    render literal = resolve literal >>= λ v. ok (value_to_space_string v)

    -- `resolveStringStrict`
    unfoldable pub resolve_string_strict : String → Result ArgsError String
    resolve_string_strict s = resolve_raw_if_exact s >>= λ raw. elim raw [
      | some v ↦ ok (value_to_space_string v)
      | none ↦ replace_from match_literal render 0 s >>= replace_from match_variable render 0
    ]

    -- `interpolateAnyStrict` of a text.
    unfoldable pub interpolate_text : String → Result ArgsError Value
    interpolate_text s = resolve_raw_if_exact s >>= λ raw. elim raw [
      | some v ↦ ok v
      | none ↦ resolve_string_strict s >>= λ t. ok (str t)
    ]

    -- `interpolateAnyStrict`
    unfoldable mutual
      pub interpolate_any_strict : Value → Result ArgsError Value
      interpolate_any_strict (str s) = interpolate_text s
      interpolate_any_strict (arr xs) = interpolate_items xs >>= λ ys. ok (arr ys)
      interpolate_any_strict (obj fs) = interpolate_fields fs >>= λ gs. ok (obj gs)
      interpolate_any_strict v = ok v

      pub interpolate_items : Items → Result ArgsError Items
      interpolate_items nil = ok nil
      interpolate_items (cons v xs) =
          interpolate_any_strict v >>= λ w. interpolate_items xs >>= λ ys. ok (cons w ys)

      pub interpolate_fields : Fields → Result ArgsError Fields
      interpolate_fields end = ok end
      interpolate_fields (field k v fs) =
          interpolate_any_strict v >>= λ w. interpolate_fields fs >>= λ gs. ok (field k w gs)

  -- A resolved value in the place of a text: the element of a one-element array, else a text.
  abbrev pub normalize_text : Value → Value
  normalize_text (arr (cons v nil)) = v
  normalize_text v = str (value_to_space_string v)

  -- `origObj[k]`
  abbrev pub original_field : String → Value → Value
  original_field k (obj fs) = or_else (get_field k fs) null
  original_field k _ = null

  -- `normalizeByOrigin`. The fields of an array are its elements under their indices.
  unfoldable mutual
    pub normalize_by_origin : Value → Value → Value
    normalize_by_origin value (str s) = normalize_text value
    normalize_by_origin value (arr xs) = arr (to_items (value_to_array_tokens value))
    normalize_by_origin (obj fs) original = obj (normalize_fields fs original)
    normalize_by_origin (arr xs) original = obj (normalize_items 0 xs original)
    normalize_by_origin value original = value

    pub normalize_fields : Fields → Value → Fields
    normalize_fields end original = end
    normalize_fields (field k v fs) original =
        field k (normalize_by_origin v (original_field k original)) (normalize_fields fs original)

    pub normalize_items : ℕ → Items → Value → Fields
    normalize_items i nil original = end
    normalize_items i (cons v xs) original =
        field (js.decimal i) (normalize_by_origin v (original_field (js.decimal i) original))
          (normalize_items (suc i) xs original)

unfoldable pub has_literal : String → Bool
has_literal s = has_match match_literal s || has_match match_variable s

-- `containsLiteral`
unfoldable mutual
  pub contains_literal : Value → Bool
  contains_literal (str s) = has_literal s
  contains_literal (arr xs) = items_contain_literal xs
  contains_literal (obj fs) = fields_contain_literal fs
  contains_literal _ = false

  pub items_contain_literal : Items → Bool
  items_contain_literal nil = false
  items_contain_literal (cons v xs) = contains_literal v || items_contain_literal xs

  pub fields_contain_literal : Fields → Bool
  fields_contain_literal end = false
  fields_contain_literal (field k v fs) = contains_literal v || fields_contain_literal fs

-- `interpolateOperation`, on the arguments, which are all that it changes.
unfoldable pub interpolate_operation : Engine → Fields → Fields → Value → Result ArgsError Value
interpolate_operation js globals buckets args =
    interpolate_any_strict js globals buckets args >>= λ resolved.
    let normalized = normalize_by_origin js resolved args in
    if contains_literal normalized then err literals_remain else ok normalized

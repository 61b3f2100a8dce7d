-- ===== src/Interpolate/Plain.antt =====
-- What the interpolation does with arguments that have no literals.
use nosana_node.Base.{
  String, ◌≡◌, refl, inl, inr, true, false, ◌&&◌, Bool, Option, none, some, Option-cases, [], ◌∷◌,
  arith, is_some, Result, ok, not, ap, eq_iff, eq_refl, and_split, no_some,
}
use nosana_node.Json.{
  Value, null, bool, num, str, arr, obj, Items, nil, cons, Fields, end, field, Engine, join_space,
  to_items, get_field, text,
}
use nosana_node.Literals.{
  Literal, match_literal, match_variable, exact, has_match, replace_from, strip,
}
use nosana_node.Interpolate.{
  render, interpolate_text, interpolate_any_strict, interpolate_items, tokens, interpolate_fields,
  interpolate_operation, parse_if_json, has_literal, contains_literal, items_contain_literal,
  fields_contain_literal, normalize_by_origin, normalize_fields, value_to_array_tokens,
  value_to_space_string, string_tokens,
}
use nosana_node.Literals.Dots.{match_literal_empty}
use nosana_node.Interpolate.Texts.{interpolate_text-replaces}

module _ {E : Type 0} (match : String → Option (Literal × String))
    (show : Literal → Result E String) where
  replace_from-unmatched :
      (s : String) → has_match match s ≡ false → replace_from match show 0 s ≡ ok s
  unfolding has_match replace_from
  replace_from-unmatched String.[] h = refl
  replace_from-unmatched (String.◌∷◌ c s) h = elim (Option-cases (match (String.◌∷◌ c s))) [
    | inl e ↦ rw (e, replace_from, replace_from-unmatched s (rw (e, has_match) at h))
    | inr (found, e) ↦ absurd (ground (arith, rw (e, has_match) at h))
  ]

exact-unmatched :
    (match : String → Option (Literal × String)) (s : String)
    → match "" ≡ none
    → has_match match s ≡ false
    → exact match s ≡ none
unfolding has_match exact
exact-unmatched match String.[] n h = rw (n, exact)
exact-unmatched match (String.◌∷◌ c s) n h = elim (Option-cases (match (String.◌∷◌ c s))) [
  | inl e ↦ rw (e, exact)
  | inr (found, e) ↦ absurd (ground (arith, rw (e, has_match) at h))
]

match_variable_empty : match_variable "" ≡ none
unfolding match_variable strip
match_variable_empty = refl

module _ (js : Engine) (globals buckets : Fields) where
  interpolate_text-same :
      (s : String) → has_literal s ≡ false → interpolate_text js globals buckets s ≡ ok (str s)
  unfolding has_literal
  interpolate_text-same s h =
      let shown = render js globals buckets in
      let no_literal : has_match match_literal s ≡ false = ground arith in
      let no_variable : has_match match_variable s ≡ false = ground arith in
      rw (
        interpolate_text-replaces js globals buckets s
            (exact-unmatched match_literal s match_literal_empty no_literal)
            (exact-unmatched match_variable s match_variable_empty no_variable),
        replace_from-unmatched match_literal shown s no_literal,
        replace_from-unmatched match_variable shown s no_variable,
      )

  -- Where there is no literal, nothing is replaced.
  mutual
    unfolding contains_literal interpolate_any_strict

    interpolate_any_strict-same :
        (v : Value)
        → contains_literal v ≡ false
        → interpolate_any_strict js globals buckets v ≡ ok v
    interpolate_any_strict-same null h = refl
    interpolate_any_strict-same (bool b) h = refl
    interpolate_any_strict-same (num n) h = refl
    interpolate_any_strict-same (str s) h = interpolate_text-same s h
    interpolate_any_strict-same (arr xs) h = rw (interpolate_items-same xs h)
    interpolate_any_strict-same (obj fs) h = rw (interpolate_fields-same fs h)

    interpolate_items-same :
        (xs : Items)
        → items_contain_literal xs ≡ false
        → interpolate_items js globals buckets xs ≡ ok xs
    interpolate_items-same nil h = refl
    interpolate_items-same (cons v xs) h =
        rw (interpolate_any_strict-same v (ground arith), interpolate_items-same xs (ground arith))

    interpolate_fields-same :
        (fs : Fields)
        → fields_contain_literal fs ≡ false
        → interpolate_fields js globals buckets fs ≡ ok fs
    interpolate_fields-same end h = refl
    interpolate_fields-same (field k v fs) h =
        rw (interpolate_any_strict-same v (ground arith), interpolate_fields-same fs (ground arith))

-- The fields of `gs` are fields of `whole`.
abbrev IsPart : Fields → Fields → Type 0
IsPart end whole = Unit
IsPart (field k v gs) whole = (get_field k whole ≡ some v) × IsPart gs whole

IsPart-field :
    (k : String) (v : Value) (gs whole : Fields)
    → get_field k gs ≡ none
    → IsPart gs whole
    → IsPart gs (field k v whole)
unfolding get_field
IsPart-field k v end whole n h = tt
IsPart-field k v (field j w gs) whole n h = (
  ground (arith, eq_iff k j, eq_iff j k, eq_refl j, h.0),
  IsPart-field k v gs whole (ground (arith, eq_iff j k)) h.1,
)

module _ (js : Engine) where
  abbrev pub is_plain_text : String → Bool
  is_plain_text s = not (is_some (parse_if_json js s))

  -- No element of an array is `null` or an array.
  abbrev pub is_plain_items : Items → Bool
  is_plain_items nil = true
  is_plain_items (cons null xs) = false
  is_plain_items (cons (arr ys) xs) = false
  is_plain_items (cons (str s) xs) = is_plain_text s && is_plain_items xs
  is_plain_items (cons v xs) = is_plain_items xs

  -- Every text of the value that `normalizeByOrigin` reads is no JSON array or object, and the
  -- keys of each object are distinct.
  unfoldable mutual
    pub is_plain : Value → Bool
    is_plain (str s) = is_plain_text s
    is_plain (arr xs) = is_plain_items xs
    is_plain (obj fs) = are_plain fs
    is_plain _ = true

    pub are_plain : Fields → Bool
    are_plain end = true
    are_plain (field k v fs) = is_plain v && not (is_some (get_field k fs)) && are_plain fs

  are_plain-field :
      (k : String) (v : Value) (fs : Fields)
      → are_plain (field k v fs) ≡ true
      → (is_plain v ≡ true) × (get_field k fs ≡ none) × (are_plain fs ≡ true)
  unfolding are_plain
  are_plain-field k v fs h =
      let (both, rest) =
        and_split (is_plain v && not (is_some (get_field k fs))) (are_plain fs) h in
      let (plain, fresh) = and_split (is_plain v) (not (is_some (get_field k fs))) both in
      (plain, no_some (get_field k fs) fresh, rest)

  are_plain-IsPart : (fs : Fields) → are_plain fs ≡ true → IsPart fs fs
  unfolding are_plain get_field
  are_plain-IsPart end h = tt
  are_plain-IsPart (field k v fs) h =
      let (plain, fresh, rest) = are_plain-field k v fs h in
      (rw (eq_refl k), IsPart-field k v fs fs fresh (are_plain-IsPart fs rest))

  text_tokens-plain :
      (s : String) → is_plain_text s ≡ true → value_to_array_tokens js (str s) ≡ str s ∷ []
  unfolding value_to_array_tokens tokens string_tokens
  text_tokens-plain s h = elim (Option-cases (parse_if_json js s)) [
    | inl e ↦ rw (e, string_tokens)
    | inr (v, e) ↦ absurd (ground (arith, e))
  ]

  items_tokens-plain :
      (xs : Items) → is_plain_items xs ≡ true → to_items (value_to_array_tokens js (arr xs)) ≡ xs
  unfolding value_to_array_tokens tokens
  items_tokens-plain nil h = refl
  items_tokens-plain (cons null xs) h = cc
  items_tokens-plain (cons (bool b) xs) h = ap (cons (bool b)) (items_tokens-plain xs h)
  items_tokens-plain (cons (num n) xs) h = ap (cons (num n)) (items_tokens-plain xs h)
  items_tokens-plain (cons (arr ys) xs) h = cc
  items_tokens-plain (cons (obj fs) xs) h = ap (cons (obj fs)) (items_tokens-plain xs h)
  items_tokens-plain (cons (str s) xs) h =
      rw (text_tokens-plain s (ground arith), items_tokens-plain xs (ground arith))

  mutual
    unfolding normalize_by_origin value_to_space_string join_space text is_plain

    normalize_by_origin-same : (v : Value) → is_plain v ≡ true → normalize_by_origin js v v ≡ v
    normalize_by_origin-same null h = refl
    normalize_by_origin-same (bool b) h = refl
    normalize_by_origin-same (num n) h = refl
    normalize_by_origin-same (str s) h = rw (text_tokens-plain s h, join_space)
    normalize_by_origin-same (arr xs) h = ap arr (items_tokens-plain xs h)
    normalize_by_origin-same (obj fs) h =
        ap obj (normalize_fields-same fs fs h (are_plain-IsPart fs h))

    normalize_fields-same :
        (gs fs : Fields) → are_plain gs ≡ true → IsPart gs fs → normalize_fields js gs (obj fs) ≡ gs
    normalize_fields-same end fs h p = refl
    normalize_fields-same (field k v gs) fs h p =
        let (plain, fresh, rest) = are_plain-field k v gs h in
        rw (p.0, normalize_by_origin-same v plain, normalize_fields-same gs fs rest p.1)

  -- Arguments without a literal, in which no text that is a field or an element of an array reads
  -- as a JSON array or object, no array has an element that is `null` or an array, and no object
  -- has a key twice, are left as they are.
  pub interpolate_operation-same :
      (globals buckets : Fields) (args : Value)
      → contains_literal args ≡ false
      → is_plain args ≡ true
      → interpolate_operation js globals buckets args ≡ ok args
  unfolding interpolate_operation
  interpolate_operation-same globals buckets args h p =
      rw (interpolate_any_strict-same js globals buckets args h, normalize_by_origin-same args p, h)

  abbrev pub env_of : String → Value → Value
  env_of k v = obj (field "env" (obj (field k v end)) end)

  text_tokens-object :
      (s : String) (fs : Fields)
      → parse_if_json js s ≡ some (obj fs)
      → value_to_array_tokens js (str s) ≡ obj fs ∷ []
  unfolding value_to_array_tokens tokens string_tokens
  text_tokens-object s fs e = rw (e, string_tokens)

  normalize-env :
      (k s : String) (fs : Fields)
      → parse_if_json js s ≡ some (obj fs)
      → normalize_by_origin js (env_of k (str s)) (env_of k (str s))
        ≡ env_of k (str "[object Object]")
  unfolding normalize_by_origin value_to_space_string get_field join_space text
  normalize-env k s fs e = rw (eq_refl k, text_tokens-object s fs e, join_space)

  no_literal : has_literal "[object Object]" ≡ false
  unfolding has_literal has_match match_literal match_variable strip
  no_literal = refl

  -- An environment variable whose text has no literal and reads as a JSON object becomes the text
  -- `[object Object]`, although there is nothing to interpolate.
  pub interpolate_operation-env :
      (globals buckets : Fields) (k s : String) (fs : Fields)
      → has_literal s ≡ false
      → parse_if_json js s ≡ some (obj fs)
      → interpolate_operation js globals buckets (env_of k (str s))
        ≡ ok (env_of k (str "[object Object]"))
  unfolding interpolate_operation contains_literal
  interpolate_operation-env globals buckets k s fs h p = rw (
    interpolate_any_strict-same js globals buckets (env_of k (str s)) (ground arith),
    normalize-env k s fs p,
    no_literal,
  )

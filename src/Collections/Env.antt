-- ===== src/Collections/Env.antt =====
-- What `finalizeEnvOnOperation` and `stanatizeArrays` leave.
use mathlib.Core.Option
use nosana_node.Base.{
  String, str_eq, eq_iff, eq_refl, ◌≡◌, refl, inl, inr, true, false, ◌&&◌, not, Bool, Bool-cases,
  Option, none, some, Option-cases, is_some, if◌then◌else◌, arith, and_split, no_some,
}
use nosana_node.Json.{Value, str, obj, Fields, end, field, Engine, get_field, set_field}
use nosana_node.Collections.{
  to_env_string, env_strings, finalize_env, sanitized, sanitize_fields, stanatize_arrays,
}
use nosana_node.Collections.Markers.{get_set_field}

-- Whether each field is a text.
abbrev pub all_texts : Fields → Bool
all_texts end = true
all_texts (field k (str s) fs) = all_texts fs
all_texts (field k v fs) = false

-- The environment of arguments is an object of texts, if it is an object at all.
abbrev pub env_is_text : Value → Bool
env_is_text (obj fs) = elim (get_field "env" fs) [ some (obj env) ↦ all_texts env | _ ↦ true ]
env_is_text v = true

module _ (js : Engine) where
  all_texts-env_strings : (env : Fields) → all_texts (env_strings js env) ≡ true
  unfolding env_strings
  all_texts-env_strings end = refl
  all_texts-env_strings (field k v env) = all_texts-env_strings env

  env_strings_idem : (env : Fields) → env_strings js (env_strings js env) ≡ env_strings js env
  unfolding env_strings
  env_strings_idem end = refl
  env_strings_idem (field k v env) = rw (env_strings_idem env)

  get_field-env_strings :
      (k : String) (env : Fields)
      → get_field k (env_strings js env)
        ≡ Option.map (λ v. str (to_env_string js v)) (get_field k env)
  unfolding env_strings get_field
  get_field-env_strings k end = refl
  get_field-env_strings k (field j v env) = elim (Bool-cases (str_eq j k)) [
    | inl e ↦ rw e
    | inr e ↦ rw e (get_field-env_strings k env)
  ]

  set_field-twice :
      (k : String) (v w : Value) (fs : Fields) → set_field k w (set_field k v fs) ≡ set_field k w fs
  unfolding set_field
  set_field-twice k v w end = rw (eq_refl k)
  set_field-twice k v w (field j u fs) = elim (Bool-cases (str_eq j k)) [
    | inl e ↦ rw (e, set_field, e)
    | inr e ↦ rw (e, set_field, e, set_field-twice k v w fs)
  ]

  finalize_env-eq :
      (fs env : Fields)
      → get_field "env" fs ≡ some (obj env)
      → finalize_env js (obj fs) ≡ obj (set_field "env" (obj (env_strings js env)) fs)
  unfolding finalize_env
  finalize_env-eq fs env h = rw h

  -- If the arguments are an object whose `env` is an object, the new `env` has a text for each of
  -- its variables, no other argument is changed, and a second pass changes nothing.
  pub finalize_env-texts :
      (fs env : Fields)
      → get_field "env" fs ≡ some (obj env)
      → (gs : Fields) × (next : Fields) × (finalize_env js (obj fs) ≡ obj gs)
        × (all_texts next ≡ true)
        × ((k : String)
            → get_field k next ≡ Option.map (λ v. str (to_env_string js v)) (get_field k env))
        × ((k : String)
            → get_field k gs ≡ (if str_eq "env" k then some (obj next) else get_field k fs))
        × (finalize_env js (obj gs) ≡ obj gs)
  finalize_env-texts fs env h =
      let next = env_strings js env in
      let gs = set_field "env" (obj next) fs in
      let there : get_field "env" gs ≡ some (obj next) = get_set_field "env" "env" (obj next) fs in
      (
        gs,
        next,
        finalize_env-eq fs env h,
        all_texts-env_strings env,
        (λ k. get_field-env_strings k env),
        (λ k. get_set_field "env" k (obj next) fs),
        rw (
          finalize_env-eq gs next there,
          env_strings_idem env,
          set_field-twice "env" (obj next) (obj next) fs,
        ),
      )

-- What `stanatizeArrays` makes of an argument that is looked up.
abbrev pub sanitized_field : Option Value → Option Value
sanitized_field none = none
sanitized_field (some v) = sanitized v

abbrev pub has_distinct_keys : Fields → Bool
has_distinct_keys end = true
has_distinct_keys (field k v fs) = not (is_some (get_field k fs)) && has_distinct_keys fs

get_field-sanitize_fields :
    (k : String) (fs : Fields)
    → has_distinct_keys fs ≡ true
    → get_field k (sanitize_fields fs) ≡ sanitized_field (get_field k fs)
unfolding sanitize_fields get_field
get_field-sanitize_fields k end h = refl
get_field-sanitize_fields k (field j v fs) h =
    let (fresh, rest) = and_split (not (is_some (get_field j fs))) (has_distinct_keys fs) h in
    let later = get_field-sanitize_fields k fs rest in
    let gone = no_some (get_field j fs) fresh in
    elim (Bool-cases (str_eq j k)) [
      | inl s ↦
          let same : j ≡ k = ground (arith, eq_iff j k) in
          let gone_k : get_field k fs ≡ none = rw same at gone in
          elim (Option-cases (sanitized v)) [
            | inl e ↦ rw (e, s, later, gone_k, e)
            | inr (w, e) ↦ rw (e, s, e)
          ]
      | inr s ↦ elim (Option-cases (sanitized v)) [
        | inl e ↦ rw (e, s, later)
        | inr (w, e) ↦ rw (e, s, later)
      ]
    ]

-- In arguments with distinct keys each argument becomes what `stanatizeArrays` makes of it alone:
-- an array without its first `__remove-if-empty__`, which is deleted if nothing is left, and any
-- other argument as it is.
pub stanatize_arrays-each :
    (fs : Fields) (k : String)
    → has_distinct_keys fs ≡ true
    → (gs : Fields) × (stanatize_arrays (obj fs) ≡ obj gs)
      × (get_field k gs ≡ sanitized_field (get_field k fs))
unfolding stanatize_arrays
stanatize_arrays-each fs k h = (sanitize_fields fs, refl, get_field-sanitize_fields k fs h)

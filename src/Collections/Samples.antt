-- ===== src/Collections/Samples.antt =====
-- Runs of the steps after the interpolation.
use mathlib.Core.Option
use Prim.Native.String.{count}
use nosana_node.Base.{
  String, ◌<◌, ◌≡◌, refl, true, Option, none, some, if◌then◌else◌, str_eq, arith, Bool-cases, inl,
  inr, ok, eq_iff, sym, some_inj,
}
use nosana_node.Json.{
  Value, bool, num, str, arr, obj, nil, cons, Fields, end, field, Engine, text_size, get_field,
  set_field,
}
use nosana_node.Collections.{
  get_marker, transform_collections, visit, apply_markers, object_handler, patch, from_pairs,
  keep_field, push_item, push_items, push_all, first_items, chunked_items, text_items, parse_as,
  join, finalize_env, stanatize_arrays, sanitized, without_removal, to_env_string,
}
use nosana_node.Collections.Markers.{has_marker, transform_collections-same, to_pairs}
use nosana_node.Collections.Env.{all_texts, finalize_env-texts, stanatize_arrays-each}

abbrev ports : Value
ports = arr (cons (num "80") (cons (num "81") nil))

abbrev vars : Fields
vars = field "A" (str "1") (field "B" (num "2") end)

abbrev read : String → Option Value
read s =
    if str_eq s "[80,81]"
    then some ports
    else if str_eq s "pairs"
    then some (arr (to_pairs vars))
    else none

abbrev engine : Engine
engine = record { parse = read; stringify = λ v. "{}"; trim = λ s. s; decimal = λ n. "0" }

abbrev marked : Value
marked = obj (
    field "expose" (arr (cons (num "9") (cons (obj (field "__spread__" (str "[80,81]") end)) nil)))
      (field "env" (obj (field "C" (str "0") (field "__pairs__" (str "pairs") end))) end))

marked_runs :
    transform_collections engine true marked
    ≡ ok (
        obj (
          field "expose"
            (arr (cons (num "9") (cons (num "80") (cons (num "81") nil))))
            (field "env" (obj (field "C" (str "0") vars)) end)))
unfolding transform_collections visit apply_markers object_handler patch from_pairs keep_field
    push_item push_items push_all first_items chunked_items text_items parse_as join get_marker
    get_field set_field
marked_runs = refl

transform_collections-same_example : transform_collections engine true (obj vars) ≡ ok (obj vars)
unfolding has_marker get_marker
transform_collections-same_example = transform_collections-same engine true (obj vars) refl

read_shrinks : (s : String) (v : Value) → engine.parse s ≡ some v → text_size v < count s
unfolding text_size
read_shrinks s v h = elim (Bool-cases (str_eq s "[80,81]")) [
  | inl e ↦
      let same : s ≡ "[80,81]" = ground (arith, eq_iff s "[80,81]") in
      rw (sym (some_inj (rw e at h)), same) (omega arith)
  | inr n ↦ elim (Bool-cases (str_eq s "pairs")) [
    | inl e ↦
        let same : s ≡ "pairs" = ground (arith, eq_iff s "pairs") in
        rw (sym (some_inj (rw (n, e) at h)), same) (omega arith)
    | inr f ↦ absurd (ground (arith, rw (n, f) at h))
  ]
]

abbrev with_env : Fields
with_env = field "env" (obj vars) (field "gpu" (bool true) end)

finalize_env-texts_example :
    (gs : Fields) × (next : Fields) × (finalize_env engine (obj with_env) ≡ obj gs)
    × (all_texts next ≡ true)
    × ((k : String)
        → get_field k next ≡ Option.map (λ v. str (to_env_string engine v)) (get_field k vars))
    × ((k : String)
        → get_field k gs ≡ (if str_eq "env" k then some (obj next) else get_field k with_env))
    × (finalize_env engine (obj gs) ≡ obj gs)
unfolding get_field
finalize_env-texts_example = finalize_env-texts engine with_env vars refl

abbrev with_removal : Fields
with_removal =
    field "entrypoint" (arr (cons (str "__remove-if-empty__") nil)) (field "cmd" (arr nil) end)

stanatize_arrays-each_example :
    (gs : Fields) × (stanatize_arrays (obj with_removal) ≡ obj gs)
    × (get_field "entrypoint" gs ≡ none)
unfolding get_field sanitized without_removal
stanatize_arrays-each_example = stanatize_arrays-each with_removal "entrypoint" refl

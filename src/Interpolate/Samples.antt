-- ===== src/Interpolate/Samples.antt =====
-- Runs of the interpolation on small arguments.
use Prim.Native.String.{count}
use nosana_node.Base.{
  String, ◌<◌, ◌≡◌, refl, Option, none, some, if◌then◌else◌, str_eq, arith, Bool-cases, inl, inr,
  ok, eq_iff, ltb, sym, some_inj,
}
use nosana_node.Json.{
  Value, num, str, arr, obj, nil, cons, Fields, end, field, Engine, text_size, get_field,
  get_property, split_dots, join_space, text,
}
use nosana_node.Literals.{
  match_literal, match_variable, strip, match_parts, until_dot, until_close, is_path_char,
  last_close, exact, has_match, replace_from,
}
use nosana_node.Interpolate.{
  interpolate_operation, value_to_array_tokens, has_literal, parse_if_json, contains_literal,
  interpolate_any_strict, interpolate_text, resolve_raw_if_exact, resolve, lookup,
  get_by_path_strict, get_global_by_path, walk, render, value_to_space_string, tokens,
  string_tokens, normalize_by_origin, resolve_string_strict,
}
use nosana_node.Interpolate.Plain.{interpolate_operation-same, is_plain}

-- An engine that reads two texts.
abbrev read : String → Option Value
read s =
    if str_eq s "[1,\"a\"]"
    then some (arr (cons (num "1") (cons (str "a") nil)))
    else if str_eq s "{}"
    then some (obj end)
    else none

abbrev engine : Engine
engine = record {
  parse = read;
  stringify = λ v. "";
  trim = λ s. s;
  decimal = λ n. if ltb n 1 then "0" else "1";
}

abbrev globals : Fields
globals = field "job" (str "J") (field "variables" (obj (field "MODEL" (str "m") end)) end)

abbrev buckets : Fields
buckets =
    field "seed"
      (obj (
        field "host" (str "flow-0") (
          field "results" (obj (field "ids" (arr (cons (str "x") (cons (str "y") nil))) end)) end)))
      end

abbrev wired : Value
wired = obj (
    field "cmd" (arr (cons (str "run") (cons (str "%%ops.seed.results.ids%%") nil)))
      (field "image" (str "reg/%%global.variables.MODEL%%:%%globals.job%%") end))

wired_runs :
    interpolate_operation engine globals buckets wired
    ≡ ok (
        obj (
          field "cmd"
            (arr (cons (str "run") (cons (str "x") (cons (str "y") nil))))
            (field "image" (str "reg/m:J") end)))
unfolding interpolate_operation interpolate_any_strict interpolate_text resolve_raw_if_exact exact
    match_literal match_variable strip match_parts until_dot until_close is_path_char last_close
    resolve lookup get_by_path_strict get_global_by_path walk split_dots get_property get_field
    replace_from render value_to_space_string value_to_array_tokens tokens string_tokens
    parse_if_json normalize_by_origin contains_literal has_literal has_match join_space text
    resolve_string_strict
wired_runs = refl

abbrev unwired : Value
unwired = obj (field "cmd" (arr (cons (str "see %%ops.seed.results.none%%!") nil)) end)

abbrev plain : Value
plain = obj (
    field "cmd" (arr (cons (str "-c") (cons (str "echo 100%") nil)))
      (field "env" (obj (field "A" (str "b") end)) end))

interpolate_operation-same_example : interpolate_operation engine globals buckets plain ≡ ok plain
unfolding contains_literal has_literal has_match match_literal match_variable strip is_plain
    get_field parse_if_json
interpolate_operation-same_example =
    interpolate_operation-same engine globals buckets plain refl refl

read_shrinks : (s : String) (v : Value) → engine.parse s ≡ some v → text_size v < count s
unfolding text_size
read_shrinks s v h = elim (Bool-cases (str_eq s "[1,\"a\"]")) [
  | inl e ↦
      let same : s ≡ "[1,\"a\"]" = ground (arith, eq_iff s "[1,\"a\"]") in
      rw (sym (some_inj (rw e at h)), same) (omega arith)
  | inr n ↦ elim (Bool-cases (str_eq s "{}")) [
    | inl e ↦
        let same : s ≡ "{}" = ground (arith, eq_iff s "{}") in
        rw (sym (some_inj (rw (n, e) at h)), same) (omega arith)
    | inr f ↦ absurd (ground (arith, rw (n, f) at h))
  ]
]

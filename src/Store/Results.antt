-- ===== src/Store/Results.antt =====
-- A result that is stored is what its literal resolves to.
use nosana_node.Base.{
  String, str_eq, eq_iff, eq_refl, ◌≡◌, refl, ◌∙◌, inl, inr, Bool, true, false, ◌&&◌, some,
  Option-cases, Bool-cases, [], ◌∷◌, if◌then◌else◌, arith,
}
use nosana_node.Json.{
  Value, null, bool, num, arr, obj, Fields, Engine, get_field, set_field, get_property, split_dots,
  present, str, is_null,
}
use nosana_node.Interpolate.{get_by_path_strict, walk}
use nosana_node.Collections.Markers.{get_set_field}
use nosana_node.Store.{
  ExposedOp, Definition, Exposer, Store, fields_of, with_bucket, expose_bucket, process_operation,
  find_exposed, rehydrate_endpoints, rehydrate_if, set_result, change_results, is_truthy,
}

abbrev bucket : String → Store → Fields
bucket id s = fields_of (get_field id s.buckets)

get-with_bucket :
    (id other : String) (change : Fields → Fields) (s : Store)
    → get_field other (with_bucket id change s).buckets
      ≡ (if str_eq id other then some (obj (change (bucket id s))) else get_field other s.buckets)
unfolding with_bucket
get-with_bucket id other change s = get_set_field id other _ s.buckets

present-value : (v : Value) → is_null v ≡ false → present (some v) ≡ some v
present-value null h = cc
present-value (bool b) h = refl
present-value (num n) h = refl
present-value (str s) h = refl
present-value (arr xs) h = refl
present-value (obj fs) h = refl

module _ (x : Exposer) (flow_id project : String) (job : Definition) where
  get_results-expose :
      (op : ExposedOp) (b : Fields)
      → get_field "results" (expose_bucket x flow_id project job op b) ≡ get_field "results" b
  unfolding expose_bucket
  get_results-expose op b = elim (Option-cases (job.deployment_id)) [
    | inl e ↦ rw (e, get_set_field "endpoint" "results" _ b)
    | inr (deployment, e) ↦ rw (
      e,
      get_set_field "deployment_endpoint" "results" _ _,
      get_set_field "endpoint" "results" _ b,
    )
  ]

  abbrev Holds : String → Fields → Store → Type 0
  Holds id results s =
      (b : Fields) × (get_field id s.buckets ≡ some (obj b))
      × (get_field "results" b ≡ some (obj results))

  Holds-process_operation :
      (id : String) (results : Fields) (op : ExposedOp) (s : Store)
      → Holds id results s
      → Holds id results (process_operation x flow_id project job op s)
  unfolding process_operation
  Holds-process_operation id results op s (b, there, held) =
      let change = expose_bucket x flow_id project job op in
      elim (Bool-cases (op.is_run && is_truthy op.expose)) [
        | inr skipped ↦ rw skipped (b, there, held)
        | inl exposed ↦ elim (Bool-cases (str_eq op.id id)) [
          | inr apart ↦ rw exposed (b, rw (get-with_bucket op.id id change s, apart) there, held)
          | inl s' ↦
              let same : op.id ≡ id = ground (arith, eq_iff op.id id) in
              rw exposed (
                change b,
                rw (get-with_bucket op.id id change s, s', same, there),
                get_results-expose op b ∙ held,
              )
        ]
      ]

  Holds-rehydrate_if :
      (has_flow : Bool) (id other : String) (results : Fields) (s : Store)
      → Holds id results s
      → Holds id results (rehydrate_if x flow_id project job has_flow other s)
  unfolding rehydrate_if rehydrate_endpoints
  Holds-rehydrate_if false id other results s h = h
  Holds-rehydrate_if true id other results s h = elim (Option-cases (find_exposed other job.ops)) [
    | inl e ↦ rw (e, rehydrate_endpoints) h
    | inr (op, e) ↦ rw (e, rehydrate_endpoints) (Holds-process_operation id results op s h)
  ]

  Holds-set_result :
      (has_flow : Bool) (id key : String) (value : Value) (s : Store)
      → Holds id
          (set_field key value (fields_of (get_field "results" (bucket id s))))
          (set_result x flow_id project job has_flow id key value s)
  unfolding set_result
  Holds-set_result has_flow id key value s =
      let change = change_results (set_field key value) in
      Holds-rehydrate_if has_flow id id _ (with_bucket id change s) (
        change (bucket id s),
        rw (get-with_bucket id id change s, eq_refl id),
        rw (get_set_field "results" "results" _ (bucket id s)),
      )

  lookup-Holds :
      (js : Engine) (id key path : String) (results : Fields) (value : Value) (s : Store)
      → split_dots path ≡ "results" ∷ key ∷ []
      → str_eq path "host" ≡ false
      → get_field key results ≡ some value
      → is_null value ≡ false
      → Holds id results s
      → get_by_path_strict js s.buckets id path ≡ some value
  unfolding get_by_path_strict walk get_property
  lookup-Holds js id key path results value s segments apart found there (b, stored, held) =
      rw (stored, get_by_path_strict, apart, segments, walk, held, found, present-value value there)

  -- After `setResult` the path `results.<key>` of the operation resolves to the value, if it is not
  -- `null` and the key has no dot, although the endpoints of the operation were written again.
  pub set_result-lookup :
      (js : Engine) (has_flow : Bool) (id key path : String) (value : Value) (s : Store)
      → split_dots path ≡ "results" ∷ key ∷ []
      → str_eq path "host" ≡ false
      → is_null value ≡ false
      → get_by_path_strict js
          (set_result x flow_id project job has_flow id key value s).buckets
          id
          path
        ≡ some value
  set_result-lookup js has_flow id key path value s segments apart there =
      let results = set_field key value (fields_of (get_field "results" (bucket id s))) in
      let after = set_result x flow_id project job has_flow id key value s in
      lookup-Holds js id key path results value after segments apart
        (rw (
          get_set_field key key value (fields_of (get_field "results" (bucket id s))),
          eq_refl key,
        ))
        there (Holds-set_result has_flow id key value s)

-- ===== src/Store.antt =====
-- NodeManager/node/task/globalStore: the setters of `globalOpStore` (setHost.ts, setResult.ts,
-- setResults.ts, setContainerIp.ts) and setDefaults.ts with its endpoints. The identifiers of the
-- endpoints (utils/expose-util.ts) and the tests on an `expose` are parameters.
pub mod Results
mod Samples
use Prim.Native.String.{◌++◌ as concat}
use nosana_node.Base.{
  String, str_eq, ℕ, suc, Bool, true, false, not, ◌&&◌, ◌||◌, Option, none, some, List, [], ◌∷◌,
  if◌then◌else◌, or_else,
}
use nosana_node.Json.{
  Value, null, bool, num, str, arr, obj, Items, nil, cons, Fields, end, field, get_field, set_field,
  text,
}
use nosana_node.Collections.{patch}

-- An operation, as the endpoints read it.
pub record ExposedOp : Type 0 where
  pub id : String
  pub is_run : Bool
  pub expose : Value
  pub private : Bool

pub record Definition : Type 0 where
  pub ops : List ExposedOp
  pub deployment_id : Option String
  pub variables : Option Fields

pub record Exposer : Type 0 where
  pub expose_id : String → ℕ → Value → Bool → String
  pub deployment_expose_id : String → String → String → String
  pub is_spread_marker : Value → Bool
  pub is_operator : String → Bool
  pub server_addr : String

-- `globalStore` and `globalOpStore`
pub record Store : Type 0 where
  pub globals : Fields
  pub buckets : Fields

abbrev pub fields_of : Option Value → Fields
fields_of (some (obj fs)) = fs
fields_of _ = end

-- `this.globalOpStore[opId] ??= {}`, and a change of it
unfoldable pub with_bucket : String → (Fields → Fields) → Store → Store
with_bucket id change s = record s {
  buckets = set_field id (obj (change (fields_of (get_field id s.buckets)))) s.buckets;
}

abbrev pub is_truthy : Value → Bool
is_truthy null = false
is_truthy (bool b) = b
is_truthy (num n) = not (str_eq n "0")
is_truthy (str s) = not (str_eq s "")
is_truthy _ = true

-- `typeof exposedPort === 'object' ? exposedPort.port : exposedPort`
abbrev pub port_of : Value → Value
port_of (obj fs) = or_else (get_field "port" fs) null
port_of v = v

abbrev pub names_operator : (String → Bool) → Value → Bool
names_operator is_operator (str s) = is_operator s
names_operator is_operator v = false

-- `ops.findIndex((o) => o.id === id)`
abbrev pub index_from : ℕ → String → List ExposedOp → ℕ
index_from i id [] = i
index_from i id (op ∷ ops) = if str_eq op.id id then i else index_from (suc i) id ops

-- `jobDefinition.ops.find((o) => o.id === opId)`
unfoldable pub find_exposed : String → List ExposedOp → Option ExposedOp
find_exposed id [] = none
find_exposed id (op ∷ ops) = if str_eq op.id id then some op else find_exposed id ops

abbrev pub spread_variables : Fields → Fields → Fields
spread_variables variables store =
    set_field "variables" (obj (patch true variables (fields_of (get_field "variables" store))))
      store

abbrev pub change_results : (Fields → Fields) → Fields → Fields
change_results change bucket =
    set_field "results" (obj (change (fields_of (get_field "results" bucket)))) bucket

module _ (x : Exposer) (flow_id project : String) (job : Definition) where
  abbrev url : String → String
  url id = concat id (concat "." x.server_addr)

  -- The endpoint of one exposed port, unless the port is still to be computed.
  unfoldable pub add_endpoint : ExposedOp → Value → Value → Fields → Fields
  add_endpoint op exposed port endpoints =
      if x.is_spread_marker exposed || names_operator x.is_operator exposed
      then endpoints
      else set_field (text port)
          (str (url (x.expose_id flow_id (index_from 0 op.id job.ops) port op.private))) endpoints

  unfoldable pub add_endpoints : ExposedOp → Items → Fields → Fields
  add_endpoints op nil endpoints = endpoints
  add_endpoints op (cons v vs) endpoints =
      add_endpoints op vs (add_endpoint op v (port_of v) endpoints)

  abbrev pub endpoints_of : ExposedOp → Fields → Fields
  endpoints_of op endpoints = elim (op.expose) [
    | arr xs ↦ add_endpoints op xs endpoints
    | v ↦ add_endpoint op v v endpoints
  ]

  abbrev add_deployment : ExposedOp → Fields → Fields
  add_deployment op bucket = elim (job.deployment_id) [
    | none ↦ bucket
    | some deployment ↦
        set_field "deployment_endpoint"
          (str (url (x.deployment_expose_id deployment project op.id))) bucket
  ]

  -- What `processOperationsForEndpoints` does to the bucket of an operation.
  unfoldable pub expose_bucket : ExposedOp → Fields → Fields
  expose_bucket op bucket = add_deployment op (
      set_field "endpoint" (obj (endpoints_of op (fields_of (get_field "endpoint" bucket)))) bucket)

  unfoldable pub process_operation : ExposedOp → Store → Store
  process_operation op s =
      if op.is_run && is_truthy op.expose then with_bucket op.id (expose_bucket op) s else s

  -- `processOperationsForEndpoints`
  unfoldable pub process_operations : List ExposedOp → Store → Store
  process_operations [] s = s
  process_operations (op ∷ ops) s = process_operations ops (process_operation op s)

  -- `rehydrateEndpointsForOperation`
  unfoldable pub rehydrate_endpoints : String → Store → Store
  rehydrate_endpoints id s = elim (find_exposed id job.ops) [
    | none ↦ s
    | some op ↦ process_operation op s
  ]

  -- `setDefaults`
  unfoldable pub set_defaults : Store → Store
  set_defaults s = process_operations job.ops (elim (job.variables) [
    | none ↦ s
    | some variables ↦ record s {
      buckets = spread_variables variables s.buckets;
      globals = spread_variables variables s.globals;
    }
  ])

  -- The setters. `has_flow` is whether the repository has the flow of the job.
  unfoldable pub rehydrate_if : Bool → String → Store → Store
  rehydrate_if has_flow id s = if has_flow then rehydrate_endpoints id s else s

  -- `setHost`, by the name that it makes of the flow and the index of the operation
  unfoldable pub set_host : Bool → String → String → Store → Store
  set_host has_flow id host s =
      rehydrate_if has_flow id (with_bucket id (set_field "host" (str host)) s)

  -- `setContainerIp`
  unfoldable pub set_container_ip : Bool → String → String → Store → Store
  set_container_ip has_flow id ip s =
      rehydrate_if has_flow id (with_bucket id (set_field "container_ip" (str ip)) s)

  -- `setResult`
  unfoldable pub set_result : Bool → String → String → Value → Store → Store
  set_result has_flow id key value s =
      rehydrate_if has_flow id (with_bucket id (change_results (set_field key value)) s)

  -- `setResults`
  unfoldable pub set_results : Bool → String → Fields → Store → Store
  set_results has_flow id values s =
      rehydrate_if has_flow id (with_bucket id (change_results (patch true values)) s)

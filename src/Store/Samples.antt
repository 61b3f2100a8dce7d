-- ===== src/Store/Samples.antt =====
-- Runs of the setters of the global store.
use nosana_node.Base.{◌≡◌, refl, true, false, none, [], ◌∷◌}
use nosana_node.Json.{num, str, obj, end, field, Engine, get_field, set_field, text}
use nosana_node.Store.{
  ExposedOp, Definition, Exposer, Store, with_bucket, expose_bucket, add_endpoint,
  process_operation, rehydrate_endpoints, rehydrate_if, find_exposed, set_host,
}

abbrev exposer : Exposer
exposer = record {
  expose_id = λ flow index port private. "id";
  deployment_expose_id = λ deployment project op. "dep";
  is_spread_marker = λ v. false;
  is_operator = λ s. false;
  server_addr = "frp";
}

abbrev web : ExposedOp
web = record { id = "web"; is_run = true; expose = num "80"; private = false }

abbrev job : Definition
job = record { ops = web ∷ []; deployment_id = none; variables = none }

abbrev fresh : Store
fresh = record { globals = end; buckets = end }

host_runs :
    (set_host exposer "f" "p" job true "web" "f-0" fresh).buckets
    ≡ field "web"
        (obj
          (field "host" (str "f-0") (field "endpoint" (obj (field "80" (str "id.frp") end)) end)))
        end
unfolding set_host with_bucket rehydrate_if rehydrate_endpoints find_exposed process_operation
    expose_bucket add_endpoint get_field set_field text
host_runs = refl

abbrev engine : Engine
engine = record { parse = λ s. none; stringify = λ v. ""; trim = λ s. s; decimal = λ n. "0" }

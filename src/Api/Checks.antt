-- ===== src/Api/Checks.antt =====
-- NodeManager/node/api/ApiHandler.ts: the checks of the API's proxy. A timeout is known by a number,
-- and `stopApiCheck` clears the one that `apiCheckTimer` holds, which a check that is running has
-- already left. A check is cut at its awaits: it probes, rebuilds the proxy, and binds the server.
use nosana_node.Base.{
  ℕ, suc, ◌-◌, Bool, true, false, Option, none, some, List, [], ◌∷◌, ◌==◌, if◌then◌else◌, ltb,
}

pub record Checker : Type 0 where
  -- `apiCheckTimer`
  pub timer : Option ℕ
  -- the timeouts that are to fire
  pub pending : List ℕ
  pub fresh : ℕ
  -- the checks that wait for the probe, for the proxy and its delay, and for the server
  pub probing : ℕ
  pub rebuilding : ℕ
  pub binding : ℕ
  -- `failedProxyRestarts`
  pub failures : ℕ
  -- how often a restart of the node was requested
  pub exits : ℕ

abbrev pub forget : ℕ → List ℕ → List ℕ
forget h [] = []
forget h (k ∷ ks) = let rest = forget h ks in if k == h then rest else k ∷ rest

-- `scheduleApiCheck`
unfoldable pub schedule_api_check : Checker → Checker
schedule_api_check c = record c {
  timer = some c.fresh;
  pending = c.fresh ∷ c.pending;
  fresh = suc c.fresh;
}

-- `startApiCheck`
unfoldable pub start_api_check : Checker → Checker
start_api_check c = elim c.timer [ none ↦ schedule_api_check c | some handle ↦ c ]

-- `stopApiCheck`
unfoldable pub stop_api_check : Checker → Checker
stop_api_check c = elim c.timer [
  | none ↦ c
  | some handle ↦ record c { timer = none; pending = forget handle c.pending }
]

-- The `finally` of a check.
unfoldable pub end_check : Checker → Checker
end_check c = elim c.timer [ none ↦ c | some handle ↦ schedule_api_check c ]

abbrev pub max_proxy_restart_failures : ℕ
max_proxy_restart_failures = 3

-- `endNodeIfProxyIsLost`, on whether the error is an `image-pull-error` and on the size of the
-- registry of task managers.
unfoldable pub end_node_if_proxy_is_lost : Bool → ℕ → Checker → Checker
end_node_if_proxy_is_lost true size c = c
end_node_if_proxy_is_lost false size c =
    let failures = suc c.failures in
    let exits =
      if ltb failures max_proxy_restart_failures
      then c.exits
      else if ltb 0 size
      then c.exits
      else suc c.exits in
    record c { failures = failures; exits = exits }

-- A timeout fires: `testApiServerOnce` is called.
unfoldable pub fire : ℕ → Checker → Checker
fire handle c = record c { pending = forget handle c.pending; probing = suc c.probing }

-- The probe has found the API.
unfoldable pub answered : Checker → Checker
answered c = end_check (record c { probing = c.probing - 1; failures = 0 })

-- It has not: `restartApiProxy` is called, unless the API was stopped.
unfoldable pub unanswered : Checker → Checker
unanswered c = elim c.timer [
  | none ↦ record c { probing = c.probing - 1 }
  | some handle ↦ record c { probing = c.probing - 1; rebuilding = suc c.rebuilding }
]

-- The proxy is set up, in a check: `startApiCheck`, then `listen`.
unfoldable pub rebuilt : Checker → Checker
rebuilt c = start_api_check (record c { rebuilding = c.rebuilding - 1; binding = suc c.binding })

-- The proxy is not, and the check ends.
unfoldable pub not_rebuilt : Bool → ℕ → Checker → Checker
not_rebuilt pull size c =
    end_check (end_node_if_proxy_is_lost pull size (record c { rebuilding = c.rebuilding - 1 }))

-- The server listens, and the check ends.
unfoldable pub bound : Checker → Checker
bound c = end_check (record c { binding = c.binding - 1; failures = 0 })

-- The server does not listen, which is no error of a pull.
unfoldable pub unbound : ℕ → Checker → Checker
unbound size c =
    end_check (end_node_if_proxy_is_lost false size (record c { binding = c.binding - 1 }))

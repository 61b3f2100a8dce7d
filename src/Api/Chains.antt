-- ===== src/Api/Chains.antt =====
-- The checks of the API's proxy, in any order with the starts and the stops of the API.
use nosana_node.Base.{
  ℕ, suc, ◌+◌, ◌≤◌, ◌≡◌, ◌⊎◌, Bool, true, none, some, List, [], ◌∷◌, arith, length, is_some,
  if◌then◌else◌,
}
use nosana_node.Api.Checks.{
  Checker, schedule_api_check, start_api_check, stop_api_check, end_check,
  end_node_if_proxy_is_lost, fire, answered, unanswered, rebuilt, not_rebuilt, bound, unbound,
}

-- The checks that are between their timeout and their end.
abbrev pub in_flight : Checker → ℕ
in_flight c = c.probing + c.rebuilding + c.binding

-- What happens: a start of the API reaches `startApiCheck`, a timeout fires, a check goes on, or,
-- between two checks, the API is stopped.
pub data Step (c : Checker) : Checker → Type 0 where
  starts : Step c (start_api_check c)
  fires : (handle : ℕ) (rest : List ℕ) → c.pending ≡ handle ∷ rest → Step c (fire handle c)
  answers : 1 ≤ c.probing → Step c (answered c)
  fails : 1 ≤ c.probing → Step c (unanswered c)
  rebuilds : 1 ≤ c.rebuilding → Step c (rebuilt c)
  breaks : (pull : Bool) (size : ℕ) → 1 ≤ c.rebuilding → Step c (not_rebuilt pull size c)
  binds : 1 ≤ c.binding → Step c (bound c)
  slips : (size : ℕ) → 1 ≤ c.binding → Step c (unbound size c)
  stops : in_flight c ≡ 0 → Step c (stop_api_check c)

pub data Reach (c : Checker) : Checker → Type 0 where
  here : Reach c c
  next : {d e : Checker} → Reach c d → Step d e → Reach c e

-- A timer that is set is that of the one check to come or under way, and without one there is none.
abbrev pub IsSingle : Checker → Type 0
IsSingle c = elim c.timer [
  | none ↦ (c.pending ≡ []) × (in_flight c ≡ 0)
  | some handle ↦
      ((c.pending ≡ handle ∷ []) × (in_flight c ≡ 0)) ⊎ ((c.pending ≡ []) × (in_flight c ≡ 1))
]

Step-IsSingle : {c d : Checker} → IsSingle c → Step c d → IsSingle d
unfolding start_api_check schedule_api_check stop_api_check end_check end_node_if_proxy_is_lost fire
    answered unanswered rebuilt not_rebuilt bound unbound
Step-IsSingle {c} single starts = ground arith
Step-IsSingle {c} single (fires handle rest h) = ground arith
Step-IsSingle {c} single (answers h) = ground arith
Step-IsSingle {c} single (fails h) = ground arith
Step-IsSingle {c} single (rebuilds h) = ground arith
Step-IsSingle {c} single (breaks pull size h) = ground arith
Step-IsSingle {c} single (binds h) = ground arith
Step-IsSingle {c} single (slips size h) = ground arith
Step-IsSingle {c} single (stops h) = ground arith

-- However the API starts and its checks go, at most one check is scheduled or under way, and one is
-- exactly while the timer is set, if the API is stopped only between two checks.
pub Reach-IsSingle :
    {c d : Checker}
    → c.timer ≡ none
    → c.pending ≡ []
    → in_flight c ≡ 0
    → Reach c d
    → IsSingle d × (length d.pending + in_flight d ≡ (if is_some d.timer then 1 else 0))
Reach-IsSingle off clear idle here = ground arith
Reach-IsSingle {c} off clear idle (next {d} {e} r st) =
    let single = Step-IsSingle (Reach-IsSingle off clear idle r).0 st in (single, ground arith)

-- A check requests a restart of the node only after three failures in a row to rebuild the proxy.
pub Step-exits :
    {c d : Checker}
    → Step c d
    → (d.exits ≡ c.exits)
      ⊎ ((d.exits ≡ suc c.exits) × (d.failures ≡ suc c.failures) × (2 ≤ c.failures))
unfolding start_api_check schedule_api_check stop_api_check end_check end_node_if_proxy_is_lost fire
    answered unanswered rebuilt not_rebuilt bound unbound
Step-exits {c} starts = ground arith
Step-exits {c} (fires handle rest h) = ground arith
Step-exits {c} (answers h) = ground arith
Step-exits {c} (fails h) = ground arith
Step-exits {c} (rebuilds h) = ground arith
Step-exits {c} (breaks pull size h) = ground arith
Step-exits {c} (binds h) = ground arith
Step-exits {c} (slips size h) = ground arith
Step-exits {c} (stops h) = ground arith

-- An API that is stopped while a check rebuilds its proxy is not stopped: the check starts the
-- server, and after it two checks are scheduled.
pub bound-stop :
    (c : Checker) (handle : ℕ)
    → c.timer ≡ some handle
    → c.pending ≡ []
    → c.rebuilding ≡ 1
    → let d = bound (rebuilt (stop_api_check c)) in
      (length d.pending ≡ 2) × (is_some d.timer ≡ true) × (d.failures ≡ 0)
unfolding start_api_check schedule_api_check stop_api_check end_check rebuilt bound
bound-stop c handle set clear one = ground arith

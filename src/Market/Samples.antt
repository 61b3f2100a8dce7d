-- ===== src/Market/Samples.antt =====
-- A host manager that asks for a benchmark and a retest before it grants a market, and a node that
-- waits in the queue of another market than the one it is told to join.
use nosana_node.Base.{
  ℕ, suc, ◌+◌, ◌≤◌, ◌≡◌, refl, true, false, none, some, ok, List, [], ◌∷◌, length, All, get_elem?,
  arith,
}
use nosana_node.Market.{Market, HostAnswer, Round, request, verdict, on_answer, Chain, Handler}
use nosana_node.Market.Requests.{request-sleeps, IsWait, request-Grants, Grants}

abbrev gpu : Market
gpu = record { address = "gpu"; queue = "other" ∷ [] }

abbrev cpu : Market
cpu = record { address = "cpu"; queue = "node" ∷ [] }

abbrev nothing : HostAnswer
nothing = record {
  not_registered = false;
  rejected = false;
  benchmark = false;
  session = none;
  access_key = false;
  market = none;
  next_test_at = none;
}

abbrev round : HostAnswer → Round
round a = record {
  now = 1000;
  counted_at = 1000;
  answer = ok a;
  benchmarked = none;
  access_submitted = none;
  on_chain = λ address. ok (some gpu);
}

abbrev rounds : List Round
rounds =
    round (record nothing { benchmark = true; session = some "s1" })
    ∷ round (record nothing { next_test_at = some 5500 })
    ∷ round (record nothing { market = some "gpu" })
    ∷ []

request-sleeps_example :
    (length (request rounds none 0).sleeps + 0 ≤ 3) × All IsWait (request rounds none 0).sleeps
request-sleeps_example = request-sleeps rounds none 0 (omega arith)

request-Grants_example :
    (i : ℕ) × (last : Round) × (get_elem? rounds i ≡ some last)
    × Grants last gpu
    × (length (request rounds none 0).sessions ≡ suc i)
unfolding request verdict on_answer
request-Grants_example = request-Grants rounds none 0 gpu refl

abbrev chain : Chain
chain = record {
  get_market = λ address. ok gpu;
  all_markets = ok (gpu ∷ cpu ∷ []);
  work = λ address. none;
}

abbrev idle : Handler
idle = record { address = "node"; market = none; in_market = false; monitoring = false }

-- ===== src/Market.antt =====
-- NodeManager/node/market/marketHandler.ts: how the node asks the host manager for a market, and
-- how it stands in a market's queue; with `queue` of NodeManager/node/Node.ts. What the host
-- manager and the chain answer are parameters, and an error is its message.
pub mod Requests
pub mod Queues
mod Samples
use nosana_node.Base.{
  String, str_eq, ℕ, suc, ◌+◌, ◌-◌, ◌/◌, ◌*◌, ltb, leb, Bool, true, false, not, ◌&&◌, Option, none,
  some, List, [], ◌∷◌, if◌then◌else◌, any, contains, is_some, or_else, length, Result, ok, err,
}
use nosana_node.Literals.{is_empty_text}

pub record Market : Type 0 where
  pub address : String
  pub queue : List String

-- `RequestMarketResult`, as it is read; an address that is empty counts as none. `next_test_at` is
-- the time in milliseconds, or `none` if it is missing or no date.
pub record HostAnswer : Type 0 where
  pub not_registered : Bool
  pub rejected : Bool
  pub benchmark : Bool
  pub session : Option String
  pub access_key : Bool
  pub market : Option String
  pub next_test_at : Option ℕ

-- What one round of `request` meets: the clock when the date of a retest is read and when the wait
-- for it is counted, the answer of the host manager, how a benchmark
-- ends, how an access key is submitted, and what the chain has for a market.
pub record Round : Type 0 where
  pub now : ℕ
  pub counted_at : ℕ
  pub answer : Result String HostAnswer
  pub benchmarked : Option String
  pub access_submitted : Option String
  pub on_chain : String → Result String (Option Market)

pub data RequestError : Type 0 where
  not_registered banned not_qualified : RequestError
  thrown : String → RequestError

abbrev pub retest_buffer_s : ℕ
retest_buffer_s = 60

abbrev pub max_benchmark_retries : ℕ
max_benchmark_retries = 3

-- `parseFutureDate`
abbrev pub future_date : ℕ → Option ℕ → Option ℕ
future_date now none = none
future_date now (some at) = if ltb now at then some at else none

-- `Math.ceil((at - now) / 1000) + RETEST_BUFFER_S`. A date that has passed by less than a second
-- since it was read counts as now.
abbrev pub wait_seconds : ℕ → ℕ → ℕ
wait_seconds now at = (at - now + 999) / 1000 + retest_buffer_s

-- `sleep`: how long `setTimeout(resolve, seconds * 1e3)` waits. Past 31 bits it is a millisecond.
unfoldable pub timer_ms : ℕ → ℕ
timer_ms seconds = if leb (seconds * 1000) 2147483647 then seconds * 1000 else 1

-- What a round leads to.
pub data Verdict : Type 0 where
  ends : Result RequestError Market → Verdict
  -- Asks again, after a benchmark or after some seconds.
  again : Verdict
  retests : ℕ → Verdict

abbrev pub granted : Option String → Option String
granted none = none
granted (some address) = if is_empty_text address then none else some address

-- The end of `request`, with the market that the chain has.
abbrev pub check_chain : Result String (Option Market) → Result RequestError Market
check_chain (err e) = err (thrown e)
check_chain (ok none) = err (thrown "not found on-chain")
check_chain (ok (some market)) = ok market

-- The part of `request` where there is no market in the answer.
abbrev pub not_granted : Round → HostAnswer → ℕ → Verdict
not_granted round a retries = elim (future_date round.now a.next_test_at) [
  | none ↦ ends (err not_qualified)
  | some at ↦
      if ltb retries max_benchmark_retries
      then retests (wait_seconds round.counted_at at)
      else ends (err not_qualified)
]

abbrev pub access_failed : Round → HostAnswer → Option String
access_failed round a = if is_some a.market && a.access_key then round.access_submitted else none

-- `request` on an answer.
unfoldable pub on_answer : Round → HostAnswer → ℕ → Verdict
on_answer round a retries =
    if a.not_registered
    then ends (err not_registered)
    else if a.rejected
    then ends (err banned)
    else if a.benchmark
    then elim round.benchmarked [ some e ↦ ends (err (thrown e)) | none ↦ again ]
    else elim (access_failed round a) [
      | some e ↦ ends (err (thrown e))
      | none ↦ elim (granted a.market) [
        | none ↦ not_granted round a retries
        | some address ↦ ends (check_chain (round.on_chain address))
      ]
    ]

unfoldable pub verdict : Round → ℕ → Verdict
verdict round retries = elim round.answer [
  | err e ↦ ends (err (thrown e))
  | ok a ↦ on_answer round a retries
]

-- `result.session ?? session`
abbrev pub next_session : Round → Option String → Option String
next_session round session = elim round.answer [
  | err e ↦ session
  | ok a ↦ elim a.session [ none ↦ session | some s ↦ some s ]
]

-- What a call of `request` did: the sessions that it sent, the seconds that it slept, and how it
-- ended, if it did.
pub record Requested : Type 0 where
  pub sessions : List (Option String)
  -- in milliseconds
  pub sleeps : List ℕ
  pub outcome : Option (Result RequestError Market)

abbrev pub sending : Option String → Requested → Requested
sending session r = record r { sessions = session ∷ r.sessions }

abbrev pub sleeping : ℕ → Requested → Requested
sleeping seconds r = record r { sleeps = timer_ms seconds ∷ r.sleeps }

-- `request`, over the rounds that it meets.
unfoldable pub request : List Round → Option String → ℕ → Requested
request [] session retries = record { sessions = []; sleeps = []; outcome = none }
request (round ∷ rounds) session retries =
    let next = next_session round session in
    elim (verdict round retries) [
      | ends r ↦ record { sessions = session ∷ []; sleeps = []; outcome = some r }
      | again ↦ sending session (request rounds next retries)
      | retests seconds ↦ sending session (sleeping seconds (request rounds next (suc retries)))
    ]

-- The state of a `MarketHandler`, of a node with an address.
pub record Handler : Type 0 where
  pub address : String
  pub market : Option Market
  pub in_market : Bool
  pub monitoring : Bool

-- The chain, as the handler asks it.
pub record Chain : Type 0 where
  pub get_market : String → Result String Market
  pub all_markets : Result String (List Market)
  pub work : String → Option String

pub data QueueError : Type 0 where
  no_market undefined_market missing_market : QueueError
  join_failed chain_failed : String → QueueError

-- `market?.queue?.some((e) => e.toString() === this.address.toString())`
abbrev pub is_queued : String → Market → Bool
is_queued address m = contains address m.queue

abbrev pub find_queued : String → List Market → Option Market
find_queued address [] = none
find_queued address (m ∷ ms) =
    let rest = find_queued address ms in if is_queued address m then some m else rest

-- `checkQueuedInMarket` on the markets of the chain
unfoldable pub check_queued_in_market : List Market → Handler → Handler × Option Market
check_queued_in_market markets h = elim (find_queued h.address markets) [
  | none ↦ (h, none)
  | some m ↦ (record h { market = some m }, some m)
]

unfoldable pub set_market : Chain → String → Handler → Result QueueError Handler
set_market chain address h = elim (chain.get_market address) [
  | err e ↦ err missing_market
  | ok m ↦ ok (record h { market = some m })
]

unfoldable pub join : Chain → Handler → Result QueueError Handler
join chain h = elim h.market [
  | none ↦ err undefined_market
  | some m ↦ elim (chain.work m.address) [
    | some e ↦ err (join_failed e)
    | none ↦ ok (record h { in_market = true })
  ]
]

unfoldable pub set_in_market : Handler → Handler
set_in_market h = record h { in_market = true }

-- `queue` of Node.ts
unfoldable pub queue : Chain → Option String → Handler → Result QueueError Handler
queue chain none h = err no_market
queue chain (some address) h = elim chain.all_markets [
  | err e ↦ err (chain_failed e)
  | ok markets ↦
      let checked = check_queued_in_market markets h in
      elim (set_market chain address checked.0) [
        | err e ↦ err e
        | ok set ↦ if is_some checked.1 then ok (set_in_market set) else join chain set
      ]
]

-- `leave`: the market whose queue the chain is asked to take the node out of, and the handler after
-- it; a failure of the chain is ignored.
unfoldable pub leave : Handler → Option String × Handler
leave h = elim h.market [
  | none ↦ (none, h)
  | some m ↦ (some m.address, record h { in_market = false })
]

-- `stop`: the monitoring ends, the node leaves, and the market is forgotten.
unfoldable pub stop : Handler → Option String × Handler
stop h =
    let left = leave (record h { monitoring = false }) in (left.0, record left.1 { market = none })

-- The place of a text among others, counted from 1; 0 if it is not among them.
unfoldable pub position_of : String → List String → ℕ
position_of x [] = 0
position_of x (y ∷ ys) =
    let rest = position_of x ys in if str_eq y x then 1 else if ltb 0 rest then suc rest else 0

-- `processMarketQueuePosition`: the position and the length of the queue
unfoldable pub process_market_queue_position : Market → Handler → ℕ × ℕ
process_market_queue_position m h = (position_of h.address m.queue, length m.queue)

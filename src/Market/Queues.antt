-- ===== src/Market/Queues.antt =====
-- The queue that the node stands in, and the market that it takes itself to be in.
use nosana_node.Base.{
  String, ◌≡◌, refl, ◌⊎◌, inl, inr, true, none, some, List, ok, is_some, arith, Result-cases,
}
use nosana_node.Market.{
  Market, Chain, Handler, find_queued, check_queued_in_market, set_market, join, set_in_market,
  queue, leave, stop,
}

-- A node that has queued holds the market that was asked for, as the chain has it, and takes itself
-- to be in it; it was in some queue before, or the chain has let it join that one.
pub queue-market :
    (chain : Chain) (address : String) (h after : Handler)
    → queue chain (some address) h ≡ ok after
    → (m : Market) × (markets : List Market) × (chain.get_market address ≡ ok m)
      × (chain.all_markets ≡ ok markets)
      × (after ≡ record h { market = some m; in_market = true })
      × ((is_some (find_queued h.address markets) ≡ true) ⊎ (chain.work m.address ≡ none))
unfolding queue check_queued_in_market set_market join set_in_market
queue-market chain address h after e = elim (Result-cases chain.all_markets) [
  | inl (x, d) ↦ absurd (ground (arith, d, e))
  | inr (markets, d) ↦ elim (Result-cases (chain.get_market address)) [
    | inl (x, g) ↦ absurd (ground (arith, d, g, e))
    | inr (m, g) ↦ (m, markets, g, d, ground (arith, d, g, e), ground (arith, d, g, e))
  ]
]

-- A node that waits in the queue of one market and is told to queue in another joins no queue: it
-- takes itself to be in the other, and that is the one that a stop asks the chain to leave before
-- the monitor of the market has looked at the queues again.
pub stop-queue :
    (chain : Chain) (address : String) (h : Handler) (markets : List Market) (here there : Market)
    → chain.all_markets ≡ ok markets
    → find_queued h.address markets ≡ some here
    → chain.get_market address ≡ ok there
    → (after : Handler) × (queue chain (some address) h ≡ ok after)
      × ((stop after).0 ≡ some there.address)
unfolding queue check_queued_in_market set_market set_in_market stop leave
stop-queue chain address h markets here there listed queued asked = (
  record h { market = some there; in_market = true },
  ground (arith, listed, queued, asked),
  refl,
)

-- ===== src/Market/Requests.antt =====
-- The rounds of a request for a market.
use nosana_node.Base.{
  String, ℕ, zero, suc, get_elem?, take, ◌+◌, ◌≤◌, ◌<◌, ◌≡◌, refl, ◌⊎◌, inl, inr, false, Option,
  some, List, [], ◌∷◌, length, All, Result, ok, sym, ap, ◌∙◌, some_inj, arith, Option-cases,
  Result-cases,
}
use nosana_node.Market.{
  Market, HostAnswer, Round, RequestError, Verdict, ends, again, retests, verdict, on_answer,
  next_session, request, max_benchmark_retries, timer_ms,
}

-- A round sleeps only before a retry that it has left, and for a minute or more by its own count.
retests_bounds :
    (round : Round) (retries s : ℕ)
    → verdict round retries ≡ retests s
    → (retries < max_benchmark_retries) × (60 ≤ s)
unfolding verdict on_answer
retests_bounds round retries s h = ground arith

Verdict-cases :
    (v : Verdict)
    → ((r : Result RequestError Market) × (v ≡ ends r)) ⊎ (v ≡ again) ⊎ ((s : ℕ) × (v ≡ retests s))
Verdict-cases (ends r) = inl (r, refl)
Verdict-cases again = inr (inl refl)
Verdict-cases (retests s) = inr (inr (s, refl))

-- A wait of a minute or more, within 31 bits of milliseconds, or of a millisecond.
abbrev pub IsWait : ℕ → Type 0
IsWait ms = ((60000 ≤ ms) × (ms ≤ 2147483647)) ⊎ (ms ≡ 1)

timer_ms-IsWait : (s : ℕ) → 60 ≤ s → IsWait (timer_ms s)
unfolding timer_ms
timer_ms-IsWait s h = ground arith

-- The sleeps of a request are three at most, less the retries that it starts with. Each is at least
-- a minute and at most 2147483647 milliseconds, or one millisecond, as the timer takes a longer wait.
pub request-sleeps :
    (rounds : List Round) (session : Option String) (retries : ℕ)
    → retries ≤ max_benchmark_retries
    → (length (request rounds session retries).sleeps + retries ≤ max_benchmark_retries)
      × All IsWait (request rounds session retries).sleeps
unfolding request
request-sleeps [] session retries h = (omega arith, tt)
request-sleeps (round ∷ rounds) session retries h =
    let next = next_session round session in
    elim (Verdict-cases (verdict round retries)) [
      | inl (r, d) ↦ rw (request, d) (omega (arith, h), tt)
      | inr (inl d) ↦ rw (request, d) (request-sleeps rounds next retries h)
      | inr (inr (s, d)) ↦
          let bounds = retests_bounds round retries s d in
          let later = request-sleeps rounds next (suc retries) (omega (arith, bounds.0)) in
          rw (request, d) (omega (arith, later.0), (timer_ms-IsWait s bounds.1, later.1))
    ]

-- The session that is sent after some rounds.
abbrev pub session_after : List Round → Option String → Option String
session_after [] session = session
session_after (round ∷ rounds) session = session_after rounds (next_session round session)

-- Each request sends the session that the host manager has issued last, or the first one if it has
-- issued none.
pub request-sessions :
    (rounds : List Round) (session : Option String) (retries i : ℕ) (sent : Option String)
    → get_elem? (request rounds session retries).sessions i ≡ some sent
    → sent ≡ session_after (take i rounds) session
unfolding request
request-sessions [] session retries i sent h = cc
request-sessions (round ∷ rounds) session retries zero sent h =
    elim (Verdict-cases (verdict round retries)) [
      | inl (r, d) ↦ sym (some_inj (rw (request, d) at h))
      | inr (inl d) ↦ sym (some_inj (rw (request, d) at h))
      | inr (inr (s, d)) ↦ sym (some_inj (rw (request, d) at h))
    ]
request-sessions (round ∷ rounds) session retries (suc i) sent h =
    let next = next_session round session in
    elim (Verdict-cases (verdict round retries)) [
      | inl (r, d) ↦ absurd (ground (arith, rw (request, d) at h))
      | inr (inl d) ↦ request-sessions rounds next retries i sent (rw (request, d) at h)
      | inr (inr (s, d)) ↦ request-sessions rounds next (suc retries) i sent (rw (request, d) at h)
    ]

-- The round grants a market that the chain has.
pub record Grants (round : Round) (m : Market) : Type 0 where
  pub given : HostAnswer
  pub address : String
  pub answered : round.answer ≡ ok given
  pub registered : given.not_registered ≡ false
  pub admitted : given.rejected ≡ false
  pub tested : given.benchmark ≡ false
  pub named : given.market ≡ some address
  pub found : round.on_chain address ≡ ok (some m)

ends-Grants :
    (round : Round) (retries : ℕ) (m : Market)
    → verdict round retries ≡ ends (ok m)
    → Grants round m
unfolding verdict on_answer
ends-Grants round retries m h = elim (Result-cases round.answer) [
  | inl (e, d) ↦ absurd (ground (arith, d, h))
  | inr (a, d) ↦ elim (Option-cases a.market) [
    | inl n ↦ absurd (ground (arith, d, n, h))
    | inr (address, n) ↦ record {
      given = a;
      address = address;
      answered = d;
      registered = ground (arith, d, n, h);
      admitted = ground (arith, d, n, h);
      tested = ground (arith, d, n, h);
      named = n;
      found = ground (arith, d, n, h);
    }
  ]
]

-- A request that returns a market has it from the round that it ends with, whose answer names an
-- address under which the chain has that market, and neither refuses the node nor asks for a
-- benchmark.
pub request-Grants :
    (rounds : List Round) (session : Option String) (retries : ℕ) (m : Market)
    → (request rounds session retries).outcome ≡ some (ok m)
    → (i : ℕ) × (round : Round) × (get_elem? rounds i ≡ some round)
      × Grants round m
      × (length (request rounds session retries).sessions ≡ suc i)
unfolding request
request-Grants [] session retries m h = absurd (ground (arith, h))
request-Grants (round ∷ rounds) session retries m h =
    let next = next_session round session in
    elim (Verdict-cases (verdict round retries)) [
      | inl (r, d) ↦ (
        0,
        round,
        refl,
        ends-Grants round retries m (d ∙ ap ends (some_inj (rw (request, d) at h))),
        rw (request, d) refl,
      )
      | inr (inl d) ↦
          let (i, other, at, grants, count) =
            request-Grants rounds next retries m (rw (request, d) at h) in
          (suc i, other, at, grants, rw (request, d) (ap suc count))
      | inr (inr (s, d)) ↦
          let (i, other, at, grants, count) =
            request-Grants rounds next (suc retries) m (rw (request, d) at h) in
          (suc i, other, at, grants, rw (request, d) (ap suc count))
    ]

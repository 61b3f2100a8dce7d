-- ===== src/Jobs/Fetching.antt =====
-- The attempts at fetching a definition.
use nosana_node.Base.{
  String, ℕ, suc, ◌+◌, ◌≤◌, ◌≡◌, List, [], ◌∷◌, failed, all, arith, Result-cases, inl, inr,
}
use nosana_node.Jobs.{Services, retrieve_from, retrieve_with_retry, retry_delays}

-- The number of each attempt after `attempts`, of which there is one more than there are delays.
abbrev pub attempts_from : List ℕ → ℕ → List ℕ
attempts_from [] n = n ∷ []
attempts_from (delay ∷ delays) n = n ∷ attempts_from delays (suc n)

abbrev pub total : List ℕ → ℕ
total [] = 0
total (n ∷ ns) = n + total ns

module _ (services : Services) where
  failed-retrieve_from :
      (delays : List ℕ) (n : ℕ) (hash : String)
      → failed (retrieve_from services delays n hash).1
        ≡ all (λ i. failed (services.retrieve i hash)) (attempts_from delays n)
  unfolding retrieve_from
  failed-retrieve_from [] n hash = ground arith
  failed-retrieve_from (d ∷ ds) n hash = elim (Result-cases (services.retrieve n hash)) [
    | inl (e, h) ↦ ground (arith, h, failed-retrieve_from ds (suc n) hash)
    | inr (v, h) ↦ ground (arith, h)
  ]

  retrieve_from_le :
      (delays : List ℕ) (n : ℕ) (hash : String)
      → (retrieve_from services delays n hash).0 ≤ total delays
  unfolding retrieve_from
  retrieve_from_le [] n hash = omega arith
  retrieve_from_le (d ∷ ds) n hash = elim (Result-cases (services.retrieve n hash)) [
    | inl (e, h) ↦ ground (arith, h, retrieve_from_le ds (suc n) hash)
    | inr (v, h) ↦ ground (arith, h)
  ]

  -- A definition is fetched unless each of the four attempts fails, with 20 seconds of sleep at
  -- most.
  pub failed-retrieve_with_retry :
      (hash : String)
      → (failed (retrieve_with_retry services hash).1
          ≡ all (λ i. failed (services.retrieve i hash)) (0 ∷ 1 ∷ 2 ∷ 3 ∷ []))
        × ((retrieve_with_retry services hash).0 ≤ 20000)
  unfolding retrieve_with_retry
  failed-retrieve_with_retry hash =
      (failed-retrieve_from retry_delays 0 hash, retrieve_from_le retry_delays 0 hash)

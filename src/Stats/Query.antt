-- ===== src/Stats/Query.antt =====
-- `query` selects a time range and thins it out.
use mathlib.Core.Option
use mathlib.Core.Path.{subst}
use nosana_node.Base.{
  some_inj, ℕ, suc, zero, ◌+◌, ◌-◌, ◌≤◌, ◌≡◌, refl, sym, ap, ◌∙◌, inl, inr, Bool, true, false, not,
  ◌&&◌, Option, none, some, List, [], ◌∷◌, arith, All, Bool-cases, leb, length, select, take, drop,
}
use nosana_node.Stats.{TaskStat, capacity, slice, from_index, to_index, range, sample, thin, query}
use nosana_node.Stats.Search.{
  IsSorted, IsFalling, passes, select-eq-nil, IsSorted-IsFalling, bsearch_counts,
}

-- `start ≤ stat.timestamp ≤ end`, a bound that is left out holding always.
abbrev pub after_start : Option ℕ → TaskStat → Bool
after_start none stat = true
after_start (some start) stat = leb start stat.timestamp

abbrev pub before_end : Option ℕ → TaskStat → Bool
before_end none stat = true
before_end (some end) stat = leb stat.timestamp end

abbrev pub within : Option ℕ → Option ℕ → TaskStat → Bool
within start end stat = after_start start stat && before_end end stat

-- The tests that `from_index` and `to_index` count by.
abbrev too_early : Option ℕ → TaskStat → Bool
too_early none stat = false
too_early (some start) stat = passes false start stat

abbrev in_time : Option ℕ → TaskStat → Bool
in_time none stat = true
in_time (some end) stat = passes true end stat

module _ (p q : TaskStat → Bool) where
  slice-select :
      (xs : List TaskStat)
      → IsFalling p xs
      → IsFalling q xs
      → slice (length (select p xs)) (length (select q xs)) xs ≡ select (λ x. not (p x) && q x) xs
  slice-select [] hp hq = refl
  slice-select (x ∷ xs) hp hq = elim (Bool-cases (q x)) [
    | inl q_x ↦ elim (Bool-cases (p x)) [
      | inl p_x ↦ rw (p_x, q_x) (slice-select xs hp.1 hq.1)
      | inr p_x ↦
          let none_left = select-eq-nil p xs (hp.0 p_x) in
          rw (p_x, q_x, none_left) (ap (λ l. x ∷ l) (rw (none_left) at (slice-select xs hp.1 hq.1)))
    ]
    | inr q_x ↦
        let none_left = select-eq-nil q xs (hq.0 q_x) in
        let none_both = select-eq-nil (λ y. not (p y) && q y) xs (both_fail xs (hq.0 q_x)) in
        elim (Bool-cases (p x)) [
          | inl p_x ↦ rw (p_x, q_x, none_left, none_both)
          | inr p_x ↦ rw (p_x, q_x, none_left, none_both, select-eq-nil p xs (hp.0 p_x))
        ]
  ]
    where
      both_fail :
          (ys : List TaskStat)
          → All (λ y. q y ≡ false) ys
          → All (λ y. (not (p y) && q y) ≡ false) ys
      both_fail [] h = tt
      both_fail (y ∷ ys) h = (ground (arith, h.0), both_fail ys h.1)

select-congr :
    (p q : TaskStat → Bool) (xs : List TaskStat)
    → ((x : TaskStat) → p x ≡ q x)
    → select p xs ≡ select q xs
select-congr p q [] h = refl
select-congr p q (x ∷ xs) h = rw (h x, select-congr p q xs h)

length-select-true : (xs : List TaskStat) → length (select (λ _. true) xs) ≡ length xs
length-select-true [] = refl
length-select-true (x ∷ xs) = ap (λ n. suc n) (length-select-true xs)

select-false : (xs : List TaskStat) → select (λ _. false) xs ≡ []
select-false [] = refl
select-false (x ∷ xs) = select-false xs

IsFalling-true : (xs : List TaskStat) → IsFalling (λ _. true) xs
IsFalling-true [] = tt
IsFalling-true (x ∷ xs) = ((λ e. cc), IsFalling-true xs)

IsFalling-false : (xs : List TaskStat) → IsFalling (λ _. false) xs
IsFalling-false [] = tt
IsFalling-false (x ∷ xs) = ((λ e. all_false xs), IsFalling-false xs)
  where
    all_false : (ys : List TaskStat) → All (λ _. ◌≡◌ {A = Bool} false false) ys
    all_false [] = tt
    all_false (y ∷ ys) = (refl, all_false ys)

module _ (xs : List TaskStat) (sorted : IsSorted xs) where
  too_early-IsFalling : (start : Option ℕ) → IsFalling (too_early start) xs
  too_early-IsFalling none = IsFalling-false xs
  too_early-IsFalling (some start) = IsSorted-IsFalling false start xs sorted

  in_time-IsFalling : (end : Option ℕ) → IsFalling (in_time end) xs
  in_time-IsFalling none = IsFalling-true xs
  in_time-IsFalling (some end) = IsSorted-IsFalling true end xs sorted

  module _ (bounded : length xs ≤ capacity) where
    from_index-eq :
        (start : Option ℕ) → from_index xs start ≡ some (length (select (too_early start) xs))
    unfolding from_index
    from_index-eq none = rw select-false
    from_index-eq (some start) = bsearch_counts xs start false sorted bounded

    to_index-eq : (end : Option ℕ) → to_index xs end ≡ some (length (select (in_time end) xs))
    unfolding to_index
    to_index-eq none = rw length-select-true
    to_index-eq (some end) = bsearch_counts xs end true sorted bounded

within-eq :
    (start end : Option ℕ) (x : TaskStat)
    → (not (too_early start x) && in_time end x) ≡ within start end x
within-eq none none x = refl
within-eq none (some end) x = ground arith
within-eq (some start) none x = ground arith
within-eq (some start) (some end) x = ground arith

drop-eq-nil {ℓ} : {A : Type ℓ} (n : ℕ) (xs : List A) → length xs ≤ n → drop n xs ≡ []
drop-eq-nil zero [] h = refl
drop-eq-nil zero (x ∷ xs) h = absurd (omega arith)
drop-eq-nil (suc n) [] h = refl
drop-eq-nil (suc n) (x ∷ xs) h = drop-eq-nil n xs (omega arith)

length-take-le {ℓ} :
    {A : Type ℓ} (n : ℕ) (xs : List A) → (length (take n xs) ≤ n) × (length (take n xs) ≤ length xs)
length-take-le zero xs = omega arith
length-take-le (suc n) [] = omega arith
length-take-le (suc n) (x ∷ xs) = omega (arith, length-take-le n xs)

range-eq :
    (xs : List TaskStat) (start end : Option ℕ)
    → IsSorted xs
    → length xs ≤ capacity
    → range xs start end ≡ some (select (within start end) xs)
unfolding range
range-eq xs start end sorted bounded =
    let from = length (select (too_early start) xs) in
    let to = length (select (in_time end) xs) in
    let sliced : slice from to xs ≡ select (within start end) xs =
      slice-select (too_early start) (in_time end) xs (too_early-IsFalling xs sorted start)
        (in_time-IsFalling xs sorted end)
      ∙ select-congr _ _ xs (within-eq start end) in
    ground (
      arith,
      from_index-eq xs sorted bounded start,
      to_index-eq xs sorted bounded end,
      sliced,
      length-take-le to xs,
      drop-eq-nil from (take to xs),
    )

select_all : (xs : List TaskStat) → select (within none none) xs ≡ xs
select_all [] = refl
select_all (x ∷ xs) = ap (λ l. x ∷ l) (select_all xs)

-- On a buffer that is sorted by time and no longer than the capacity, `query` never throws, and
-- returns the statistics from `start` to `end`, both included and each bound optional, in order,
-- thinned out by `sample`.
pub query_range :
    (buffer : List TaskStat) (start end interval : Option ℕ)
    → IsSorted buffer
    → length buffer ≤ capacity
    → query buffer start end interval ≡ some (sample interval (select (within start end) buffer))
unfolding query sample thin
query_range [] start end none h k = refl
query_range [] start end (some zero) h k = refl
query_range [] start end (some (suc n)) h k = refl
query_range (x ∷ xs) none none interval h k =
    ap (λ l. some (sample interval l)) (sym (select_all (x ∷ xs)))
query_range (x ∷ xs) (some s) end interval h k =
    ap (Option.map (sample interval)) (range-eq (x ∷ xs) (some s) end h k)
query_range (x ∷ xs) none (some e) interval h k =
    ap (Option.map (sample interval)) (range-eq (x ∷ xs) none (some e) h k)

-- Each statistic comes at least an interval after the one before it, the first after `last`.
abbrev pub IsSpaced : ℕ → ℕ → List TaskStat → Type 0
IsSpaced interval last [] = Unit
IsSpaced interval last (x ∷ xs) = (last + interval ≤ x.timestamp) × IsSpaced interval x.timestamp xs

thin-IsSpaced : (n last : ℕ) (xs : List TaskStat) → IsSpaced (suc n) last (thin (suc n) last xs)
unfolding thin
thin-IsSpaced n last [] = tt
thin-IsSpaced n last (x ∷ xs) = elim (Bool-cases (leb (suc n) (x.timestamp - last))) [
  | inl far ↦ rw far (ground arith, thin-IsSpaced n x.timestamp xs)
  | inr near ↦ rw near (thin-IsSpaced n last xs)
]

module _ (n : ℕ) {found : List TaskStat} where
  sampled :
      (o : Option (List TaskStat))
      → Option.map (sample (some (suc n))) o ≡ some found
      → IsSpaced (suc n) 0 found
  unfolding sample
  sampled none h = cc
  sampled (some l) h = subst (IsSpaced (suc n) 0) (some_inj h) (thin-IsSpaced n 0 l)

-- Whatever the buffer holds, the statistics that `query` returns for an interval that is not 0 lie
-- at least that interval apart.
pub query-IsSpaced :
    (buffer : List TaskStat) (start end : Option ℕ) (n : ℕ) {found : List TaskStat}
    → query buffer start end (some (suc n)) ≡ some found
    → IsSpaced (suc n) 0 found
unfolding query sample
query-IsSpaced [] start end n h = subst (IsSpaced (suc n) 0) (some_inj h) tt
query-IsSpaced (x ∷ xs) none none n h = sampled n (some (x ∷ xs)) h
query-IsSpaced (x ∷ xs) (some s) end n h = sampled n (range (x ∷ xs) (some s) end) h
query-IsSpaced (x ∷ xs) none (some e) n h = sampled n (range (x ∷ xs) none (some e)) h

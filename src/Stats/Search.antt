-- ===== src/Stats/Search.antt =====
-- `bsearch` finds how many statistics lie before a time.
use nosana_node.Base.{
  ℕ, suc, zero, ◌+◌, ◌-◌, ◌≤◌, ◌<◌, ◌≡◌, refl, ap, inl, inr, Bool, false, some, List, [], ◌∷◌,
  arith, if◌then◌else◌, All, Bool-cases, ltb, leb, length, select, get_elem?,
}
use nosana_node.Stats.{TaskStat, before?, bsearch_loop, bsearch, capacity, middle}

-- The time of the first statistic is the earliest, and so on.
abbrev pub IsSorted : List TaskStat → Type 0
IsSorted [] = Unit
IsSorted (x ∷ xs) = All (λ y. x.timestamp ≤ y.timestamp) xs × IsSorted xs

-- Once the test fails it fails to the end.
abbrev pub IsFalling : (TaskStat → Bool) → List TaskStat → Type 0
IsFalling p [] = Unit
IsFalling p (x ∷ xs) = (p x ≡ false → All (λ y. p y ≡ false) xs) × IsFalling p xs

abbrev pub passes : Bool → ℕ → TaskStat → Bool
passes inclusive timestamp stat =
    if inclusive then leb stat.timestamp timestamp else ltb stat.timestamp timestamp

fails_later :
    (incl : Bool) (ts : ℕ) (x : TaskStat) (xs : List TaskStat)
    → All (λ y. x.timestamp ≤ y.timestamp) xs
    → passes incl ts x ≡ false
    → All (λ y. passes incl ts y ≡ false) xs
fails_later incl ts x [] h f = tt
fails_later incl ts x (y ∷ xs) h f = (ground (arith, h.0), fails_later incl ts x xs h.1 f)

pub IsSorted-IsFalling :
    (incl : Bool) (ts : ℕ) (xs : List TaskStat) → IsSorted xs → IsFalling (passes incl ts) xs
IsSorted-IsFalling incl ts [] h = tt
IsSorted-IsFalling incl ts (x ∷ xs) h =
    (fails_later incl ts x xs h.0, IsSorted-IsFalling incl ts xs h.1)

module _ (p : TaskStat → Bool) where
  pub select-eq-nil : (xs : List TaskStat) → All (λ y. p y ≡ false) xs → select p xs ≡ []
  select-eq-nil [] h = refl
  select-eq-nil (x ∷ xs) h = rw h.0 (select-eq-nil xs h.1)

  fails_at :
      (xs : List TaskStat) (i : ℕ) (x : TaskStat)
      → All (λ y. p y ≡ false) xs
      → get_elem? xs i ≡ some x
      → p x ≡ false
  fails_at [] i x h e = cc
  fails_at (y ∷ xs) zero x h e = ground (arith, h.0)
  fails_at (y ∷ xs) (suc i) x h e = fails_at xs i x h.1 e

  -- The statistics that pass are those before the index that counts them.
  pub passes_at :
      (xs : List TaskStat) (i : ℕ) (x : TaskStat)
      → IsFalling p xs
      → get_elem? xs i ≡ some x
      → p x ≡ ltb i (length (select p xs))
  passes_at [] i x h e = cc
  passes_at (y ∷ xs) zero x h e = elim (Bool-cases (p y)) [
    | inl yes_y ↦ ground arith
    | inr no_y ↦ ground (arith, select-eq-nil xs (h.0 no_y))
  ]
  passes_at (y ∷ xs) (suc i) x h e = elim (Bool-cases (p y)) [
    | inl yes_y ↦ ground (arith, passes_at xs i x h.1 e)
    | inr no_y ↦ ground (arith, select-eq-nil xs (h.0 no_y), fails_at xs i x (h.0 no_y) e)
  ]

  pub length-select-le : (xs : List TaskStat) → length (select p xs) ≤ length xs
  length-select-le [] = omega arith
  length-select-le (x ∷ xs) = ground (arith, length-select-le xs)

pub get_elem?-some {ℓ} :
    {A : Type ℓ} (xs : List A) (i : ℕ) → i < length xs → (x : A) × (get_elem? xs i ≡ some x)
get_elem?-some [] i h = absurd (omega arith)
get_elem?-some (x ∷ xs) zero h = (x, refl)
get_elem?-some (x ∷ xs) (suc i) h = get_elem?-some xs i (omega arith)

-- Within the capacity the 32-bit sum does not wrap.
middle_bounds : (lo hi : ℕ) → lo < hi → hi ≤ capacity → (lo ≤ middle lo hi) × (middle lo hi < hi)
middle_bounds lo hi h k = omega arith

module _ (buffer : List TaskStat) (ts : ℕ) (incl : Bool) (sorted : IsSorted buffer)
    (bounded : length buffer ≤ capacity) where
  abbrev target : ℕ
  target = length (select (passes incl ts) buffer)

  test_at : (i : ℕ) → i < length buffer → before? incl ts (get_elem? buffer i) ≡ some (ltb i target)
  unfolding before?
  test_at i h =
      let (x, e) = get_elem?-some buffer i h in
      rw e (
        ap some
          (passes_at (passes incl ts) buffer i x (IsSorted-IsFalling incl ts buffer sorted) e))

  bsearch_loop-eq :
      (fuel lo hi : ℕ)
      → hi - lo ≤ fuel
      → lo ≤ target
      → target ≤ hi
      → hi ≤ length buffer
      → bsearch_loop fuel buffer ts incl lo hi ≡ some target
  unfolding bsearch_loop
  bsearch_loop-eq zero lo hi f a b c = ground arith
  bsearch_loop-eq (suc fuel) lo hi f a b c = elim (Bool-cases (ltb lo hi)) [
    | inr done ↦ ground arith
    | inl more ↦
        let (low, high) = middle_bounds lo hi (ground arith) (omega arith) in
        elim (Bool-cases (ltb (middle lo hi) target)) [
          | inl right ↦
              rw (more, test_at (middle lo hi) (omega arith), right, bsearch_loop)
                (bsearch_loop-eq fuel (middle lo hi + 1) hi (omega arith) (ground arith) b c)
          | inr left ↦
              rw (more, test_at (middle lo hi) (omega arith), left, bsearch_loop)
                (bsearch_loop-eq fuel lo (middle lo hi) (omega arith) a (ground arith)
                  (omega arith))
        ]
  ]

-- On a buffer that is sorted by time and no longer than the capacity, `bsearch` ends, reads no
-- place outside the buffer, and returns how many statistics lie before the time (or at it, if
-- `inclusive`).
pub bsearch_counts :
    (buffer : List TaskStat) (timestamp : ℕ) (inclusive : Bool)
    → IsSorted buffer
    → length buffer ≤ capacity
    → bsearch buffer timestamp inclusive
      ≡ some (length (select (passes inclusive timestamp) buffer))
unfolding bsearch
bsearch_counts buffer ts incl sorted bounded =
    bsearch_loop-eq buffer ts incl sorted bounded (length buffer) 0 (length buffer) (omega arith)
      (omega arith) (length-select-le (passes incl ts) buffer) (omega arith)

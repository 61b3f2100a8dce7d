-- ===== src/Jobs/Registry.antt =====
-- NodeManager/node/job/JobRegistry.ts: the jobs whose results are to be submitted when the node
-- stops. The cleanups of the jobs run at the same time; `settle_cleanup` is the end of one of them.
use nosana_node.Base.{
  String, str_eq, Bool, true, false, ◌||◌, not, ◌&&◌, none, List, [], ◌∷◌, if◌then◌else◌, contains,
  Result, ok, err, arith, ◌≡◌, refl, eq_iff,
}
use nosana_node.Base.Map
use nosana_node.Base.Map.{Map}
use nosana_node.Resources.{includes}

-- `registry` and `runs`, for any jobs and runs.
pub record Registry {ℓ κ} (J : Type ℓ) (R : Type κ) : Type (ℓ ⊔ κ) where
  pub jobs : Map J
  pub runs : Map R

pub data CleanupStatus : Type 0 where
  submitted stale retryable_error : CleanupStatus

-- `isStaleCleanupError`, on the message of the error.
unfoldable pub is_stale_cleanup_error : String → Bool
is_stale_cleanup_error message =
    includes "AccountNotInitialized" message
    || includes "The program expected this account to be already initialized" message
    || includes "Account does not exist or has no data" message

-- The status of a cleanup, by whether it threw.
unfoldable pub cleanup_status : Result {0, 0} String Unit → CleanupStatus
cleanup_status (ok done) = submitted
cleanup_status (err message) = if is_stale_cleanup_error message then stale else retryable_error

abbrev pub is_retryable : CleanupStatus → Bool
is_retryable submitted = false
is_retryable stale = false
is_retryable retryable_error = true

-- Whether a cleanup has nothing left to submit: it returned, or its account is closed.
abbrev pub is_settled : Result {0, 0} String Unit → Bool
is_settled (ok done) = true
is_settled (err message) =
    includes "AccountNotInitialized" message
    || includes "The program expected this account to be already initialized" message
    || includes "Account does not exist or has no data" message

cleanup_status-is_settled :
    (r : Result {0, 0} String Unit) → is_settled r ≡ not (is_retryable (cleanup_status r))
unfolding cleanup_status is_stale_cleanup_error
cleanup_status-is_settled (ok done) = refl
cleanup_status-is_settled (err message) = ground arith

module _ {ℓ κ} {J : Type ℓ} {R : Type κ} where
  unfoldable pub register : String → R → J → Registry J R → Registry J R
  register id run job r = record { jobs = Map.set id job r.jobs; runs = Map.set id run r.runs }

  unfoldable pub deregister : String → Registry J R → Registry J R
  deregister id r = record { jobs = Map.delete id r.jobs; runs = Map.delete id r.runs }

  unfoldable pub settle_cleanup :
      (String → Result {0, 0} String Unit) → String → Registry J R → Registry J R
  settle_cleanup cleanup id r =
      if is_retryable (cleanup_status (cleanup id)) then r else deregister id r

  -- The cleanups of `stop`, in the order in which they end.
  unfoldable pub settle_cleanups :
      (String → Result {0, 0} String Unit) → List String → Registry J R → Registry J R
  settle_cleanups cleanup [] r = r
  settle_cleanups cleanup (id ∷ ids) r = settle_cleanups cleanup ids (settle_cleanup cleanup id r)

  get-settle_cleanup :
      (cleanup : String → Result {0, 0} String Unit) (id k : String) (r : Registry J R)
      → Map.get k (settle_cleanup cleanup id r).jobs ≡ (
          if str_eq id k && not (is_retryable (cleanup_status (cleanup id)))
          then none
          else Map.get k r.jobs)
        × (Map.get k (settle_cleanup cleanup id r).runs ≡ (
            if str_eq id k && not (is_retryable (cleanup_status (cleanup id)))
            then none
            else Map.get k r.runs))
  unfolding settle_cleanup deregister
  get-settle_cleanup cleanup id k r =
      ground (arith, Map.get-delete id k r.jobs, Map.get-delete id k r.runs)

  -- When cleanups have ended, in any order and however often, a job is registered and has its run
  -- as before, but for the jobs among them whose cleanup returned, or failed with a message that
  -- holds one of the three texts of an account that is closed: these are gone.
  pub settle_cleanups-get :
      (cleanup : String → Result {0, 0} String Unit) (ids : List String) (k : String)
      (r : Registry J R)
      → (Map.get k (settle_cleanups cleanup ids r).jobs
          ≡ (if contains k ids && is_settled (cleanup k) then none else Map.get k r.jobs))
        × (Map.get k (settle_cleanups cleanup ids r).runs
            ≡ (if contains k ids && is_settled (cleanup k) then none else Map.get k r.runs))
  unfolding settle_cleanups
  settle_cleanups-get cleanup [] k r = ground arith
  settle_cleanups-get cleanup (id ∷ ids) k r = ground (
    arith,
    eq_iff id k,
    cleanup_status-is_settled (cleanup k),
    get-settle_cleanup cleanup id k r,
    settle_cleanups-get cleanup ids k (settle_cleanup cleanup id r),
  )

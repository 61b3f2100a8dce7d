-- ===== src/Node/Cycles.antt =====
-- What the start of the node, the wait for a run, the cycle of a job and the flags guarantee.
use nosana_node.Base.{
  String, ◌≡◌, ◌↔◌, Bool, true, false, not, ◌&&◌, ◌||◌, none, some, is_some, List, [], ◌∷◌,
  if◌then◌else◌, ok, err, arith,
}
use nosana_node.Node.{
  RunHandler, Arrival, check_run, on_arrival, await_run, start_run_monitoring, StopReason,
  completed, Call, register, start, run, deregister, finish, resolved, pending, Cycle, run_cycle,
  Steps, start_node, Flags, begin_restart, end_clean, begin_start, on_signal,
}

module _ {ℓ} {R : Type ℓ} where
  on_arrival-run :
      (a : Arrival R) (h : RunHandler R) (r : R)
      → (on_arrival a h).0 ≡ some (ok r)
      → (on_arrival a h).1.run ≡ some r
  unfolding on_arrival check_run
  on_arrival-run a h r e = ground arith

  await_run-run :
      (arrivals : List (Arrival R)) (h : RunHandler R) (r : R)
      → (await_run arrivals h).0 ≡ some (ok r)
      → (await_run arrivals h).1.run ≡ some r
  unfolding await_run
  await_run-run [] h r e = cc
  await_run-run (a ∷ arrivals) h r e =
      ground (arith, on_arrival-run a h r, await_run-run arrivals (on_arrival a h).1 r)

  -- The run that the wait gives is the one that the handler holds then, however it has come in.
  pub start_run_monitoring-run :
      (arrivals : List (Arrival R)) (h : RunHandler R) (r : R)
      → (start_run_monitoring arrivals h).0 ≡ some (ok r)
      → (start_run_monitoring arrivals h).1.run ≡ some r
  unfolding start_run_monitoring
  start_run_monitoring-run arrivals h r e =
      ground (arith, await_run-run arrivals (record h { monitoring = true }) r)

-- A node asks to join a queue only if it is healthy, its setup is done, its API is active and it has
-- no pending run, and then it asks for the market that it was granted.
pub start_node-asked :
    (s : Steps) (in_job_loop : Bool) (market : String)
    → (start_node s in_job_loop).asked ≡ some market
    → (s.market ≡ ok market)
      × (s.healthy ≡ ok true)
      × (s.set_up ≡ none)
      × (s.api_active ≡ ok true)
      × (s.has_pending ≡ ok false)
      × (s.wsl_blocked ≡ none)
      × ((start_node s in_job_loop).in_job_loop ≡ true)
unfolding start_node
start_node-asked s in_job_loop market h = ground arith

-- What a cycle finishes.
abbrev pub finishes : List Call → List StopReason
finishes [] = []
finishes (finish reason ∷ calls) = reason ∷ finishes calls
finishes (register ∷ calls) = finishes calls
finishes (start ∷ calls) = finishes calls
finishes (run ∷ calls) = finishes calls
finishes (deregister ∷ calls) = finishes calls

abbrev pub deregisters : List Call → Bool
deregisters [] = false
deregisters (deregister ∷ calls) = true
deregisters (register ∷ calls) = deregisters calls
deregisters (start ∷ calls) = deregisters calls
deregisters (run ∷ calls) = deregisters calls
deregisters (finish reason ∷ calls) = deregisters calls

-- The reason under which a job is finished: that of its end if it has run, else that it is completed.
abbrev pub finish_reason : Cycle → StopReason
finish_reason c =
    if c.is_expired then completed else (elim c.started [ ok true ↦ c.reason | _ ↦ completed ])

-- The job has been claimed, it is expired, does not start or has run without an error, and the node
-- is not exiting.
abbrev pub reaches_end : Cycle → Bool
reaches_end c =
    not (is_some c.claimed)
    && not c.exiting
    && (c.is_expired
        || (elim c.started [ err e ↦ false | ok runs ↦ not runs || not (is_some c.ran) ]))

-- A cycle calls `finish` once, under the reason for its end, if it reaches the end of its job, and
-- not otherwise. It resolves exactly if it takes the job out of the registry, and then it has made
-- that call; if its promise stays pending, the node is exiting and `finish` is not called.
pub run_cycle-settled :
    (c : Cycle)
    → let calls = (run_cycle c).0 in
      let settled = (run_cycle c).1 in
      ((settled ≡ resolved) ↔ (deregisters calls ≡ true))
      × (settled ≡ resolved → finishes calls ≡ finish_reason c ∷ [])
      × (settled ≡ pending → (c.exiting ≡ true) × (finishes calls ≡ []))
      × (finishes calls ≡ (if reaches_end c then finish_reason c ∷ [] else []))
unfolding run_cycle
run_cycle-settled c =
    ((λ h. ground arith, λ h. ground arith), λ h. ground arith, λ h. ground arith, ground arith)

-- A signal that comes while a restart cleans the node does not make it exit: the node is started
-- again.
pub on_signal-lost :
    (f : Flags)
    → f.exiting ≡ false
    → f.left ≡ false
    → let after = begin_start (end_clean (on_signal (begin_restart f).1)) in
      ((begin_restart f).0 ≡ true)
      × (after.signalled ≡ true)
      × (after.left ≡ false)
      × (after.exiting ≡ false)
unfolding on_signal begin_restart end_clean begin_start
on_signal-lost f e l = ground arith

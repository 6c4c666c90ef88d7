-- ===== src/Workload/Reconcile/Backoff.antt =====
-- What `ReconcileWorkload` does with a workload that its runtime reports as failed
-- (internal/workload/manager.go): each retry that is due records one more failure first, which puts
-- the retry off again.
use compute_agent.Base.{
  ℕ, suc, ◌+◌, ◌≤◌, String, ◌≡◌, refl, true, false, some, ◌∷◌, arith, Option-cases, inl, inr,
}
use compute_agent.Base.Dict
use compute_agent.Models.{
  WorkloadType, failed, wants_running, stopped_not_running, Workload, WorkloadStatus,
}
use compute_agent.Clock.{add_time}
use compute_agent.Errors.{ok}
use compute_agent.Retry.Classify.{classify_error}
use compute_agent.Retry.Tracker.{
  RetryTracker, record_failure, retry_at, get_attempt_count, calculate_next_delay,
}
use compute_agent.Retry.Tracker.Delays.{retry_not_due}
use compute_agent.Workload.World.{
  Env, World, reads_status, tracker_or_new, now, save_status, update, read_status,
  get_retry_tracker, record_retry_failure, put_tracker,
}
use compute_agent.Workload.Status.{normalize_state_for_desired}
use compute_agent.Workload.Reconcile.{
  retry_failed, reconcile_failed, record_and_retry, after_record, reconcile_by_state,
  reconcile_loaded, observed, forget_retries,
}

-- The next reading of the clock is not past the delay of the tracker's next attempt.
abbrev pub IsPrompt : Env → RetryTracker → Type 0
IsPrompt env tracker =
    (n : ℕ)
    → env.clock (suc n)
      ≤ add_time (env.clock n)
          (calculate_next_delay env.backoff tracker (get_attempt_count tracker + 1))

module _ (env : Env) (w : Workload) (s : WorkloadStatus) (rt : WorkloadType) where
  record_and_retry-calls :
      (tracker : RetryTracker) (world : World)
      → IsPrompt env tracker
      → (record_and_retry env w s rt tracker world).1.calls ≡ world.calls
  unfolding record_and_retry after_record record_retry_failure now put_tracker save_status update
  record_and_retry-calls tracker world prompt =
      let reason = classify_error (some s.message) in
      let t1 = env.clock world.reads in
      let t2 = env.clock (suc world.reads) in
      let result = record_failure env.backoff tracker reason s.message t1 t2 in
      elim (Option-cases (retry_at result.1)) [
        | inl e ↦ rw (e, after_record)
        | inr (next, e) ↦
            rw
              (
                e,
                retry_not_due env.backoff tracker reason s.message t1 t2 next
                    (env.clock (suc (suc world.reads))) e (prompt (suc world.reads)),
              )
              refl
      ]

  retry_failed-calls :
      (world : World)
      → IsPrompt env (tracker_or_new (Dict.get w.id world.trackers) world.retry_policy)
      → (retry_failed env w s rt world).1.calls ≡ world.calls
  unfolding retry_failed get_retry_tracker now save_status update
  retry_failed-calls world prompt =
      let tracker = tracker_or_new (Dict.get w.id world.trackers) world.retry_policy in
      let world' = record world {
        reads = suc world.reads;
        trackers = Dict.put w.id tracker world.trackers;
      } in
      ground (arith, record_and_retry-calls tracker world' prompt)

module _ (env : Env) (w : Workload) (s : WorkloadStatus) (rt : WorkloadType)
    (message : String) where
  reconcile_failed-calls :
      (world : World)
      → IsPrompt env (tracker_or_new (Dict.get w.id world.trackers) world.retry_policy)
      → (reconcile_failed env w s rt false message world).1.calls ≡ world.calls
  unfolding reconcile_failed now save_status update
  reconcile_failed-calls world prompt = ground (arith, retry_failed-calls env w s rt world prompt)

  by_state-calls :
      (world : World)
      → wants_running w.desired_state ≡ true
      → IsPrompt env (tracker_or_new (Dict.get w.id world.trackers) world.retry_policy)
      → (reconcile_by_state env w s rt failed message world).1.calls ≡ world.calls
  unfolding reconcile_by_state
  by_state-calls world run prompt = rw run (reconcile_failed-calls world prompt)

-- Once a workload that is to run, its status and its runtime are loaded, and the runtime reports it
-- as failed, `ReconcileWorkload` makes no other call than the one that reads its state, so it
-- neither starts, creates nor deletes it, whatever the tracker has counted, if every reading of the
-- clock is at most the retry delay of the next attempt after the reading before it.
pub failed_never_recreated :
    (env : Env) (w : Workload) (s : WorkloadStatus) (rt : WorkloadType) (message : String)
    (world : World)
    → wants_running w.desired_state ≡ true
    → env.status_answer (reads_status rt w.id ∷ world.calls) ≡ ok (failed, message)
    → IsPrompt env (tracker_or_new (Dict.get w.id world.trackers) world.retry_policy)
    → (reconcile_loaded env w s rt world).1.calls ≡ reads_status rt w.id ∷ world.calls
unfolding reconcile_loaded read_status observed forget_retries now normalize_state_for_desired
failed_never_recreated env w s rt message world run answer prompt =
    rw (answer, stopped_not_running w.desired_state run)
      (by_state-calls env w _ rt message _ run prompt)

-- ===== src/Workload/Reconcile.antt =====
-- internal/workload/manager.go, `ReconcileWorkload`, branch by branch.
pub mod Calls
pub mod Spares
pub mod Backoff
pub mod Terminal
use compute_agent.Base.{
  ℕ, String, ◌<>◌, Bool, true, false, not, ◌&&◌, ◌||◌, Option, none, some, List, [], ◌∷◌, ltb,
  trim_space, is_blank, decimal, if◌then◌else◌,
}
use compute_agent.Base.Dict
use compute_agent.Models.{
  Time, WorkloadType, ActualState, running, stopped, failed, wants_running, wants_stopped,
  is_pending, is_running, is_failed, is_unknown, Workload, WorkloadStatus,
}
use compute_agent.Errors.{Err, plain, error_text, Result, ok, err, list_text}
use compute_agent.Retry.Reason.{FailureReason, resource_quota_exceeded, reason_text}
use compute_agent.Retry.Classify.{classify_error}
use compute_agent.Retry.Tracker.{RetryTracker, Recorded, retry_at, get_attempt_count, can_retry_now}
use compute_agent.Workload.World.{
  Env, M, pure, ◌>>=◌, ◌>>◌, on_result, on_error, now, get_workload, get_status, get_runtime,
  store_status, act, creates, starts, stops, deletes, read_status, check_resources, Availability,
  check_failed, available, short_of, get_retry_tracker, reset_retry_tracker, record_retry_failure,
}
use compute_agent.Workload.Status.{
  meta, set_meta, drop_meta, retry_terminal_key, retry_terminal_reason_key, is_retry_terminal,
  mark_retry_terminal, is_runtime_missing, normalize_state_for_desired, clear_retry_state_metadata,
  enrich_status,
}
use compute_agent.Workload.Recovery.{Handling, handled, not_handled, handle_pending_recovery}

-- `strings.Join(issues, "; ")`
joined : List String → String
joined [] = ""
joined (s ∷ []) = s
joined (s ∷ t ∷ rest) = s <> "; " <> joined (t ∷ rest)

-- What is kept of a status when its retries are halted.
unfoldable pub halted : WorkloadStatus → Time → WorkloadStatus
halted s t =
    let reason = trim_space (meta retry_terminal_reason_key s) in
    record s {
      actual_state = failed;
      updated_at = t;
      message = if is_blank reason then s.message else "retry halted: " <> reason;
    }

-- A status that waits for the next retry.
deferred : (Time → String) → RetryTracker → WorkloadStatus → WorkloadStatus
deferred format t s =
    set_meta "next_retry_time" (format t.next_retry_time)
      (set_meta "retry_attempts" (decimal (get_attempt_count t)) s)

-- The status of a failure that is not retried.
unretried : FailureReason → RetryTracker → WorkloadStatus → Time → WorkloadStatus
unretried reason tracker s t =
    let marked =
      mark_retry_terminal s tracker ("non-retryable failure (" <> reason_text reason <> ")") in
    record marked {
      actual_state = failed;
      updated_at = t;
      message =
          if is_blank (trim_space s.message)
          then "retry halted due to non-retryable failure: " <> reason_text reason
          else "retry halted due to non-retryable failure ("
            <> reason_text reason
            <> "): "
            <> s.message;
    }

-- The status of a workload that the runtime does not know.
marked_missing : String → WorkloadStatus → WorkloadStatus
marked_missing message s =
    let msg = if is_blank s.message then message else s.message in
    set_meta "last_error" msg (
      set_meta "failure_reason" "RUNTIME_RESOURCE_MISSING"
        (record s { actual_state = failed; message = msg }))

module _ (env : Env) where
  abbrev recheck : Bool → WorkloadType → String → WorkloadStatus → M WorkloadStatus
  recheck false rt id s = pure s
  recheck true rt id s = do
    r ← read_status env rt id
    on_result r (λ a. pure (record s { actual_state = a.0; message = a.1 })) (λ _. pure s)

  -- The end of the method: the status is read again after an action, enriched and saved.
  unfoldable pub finish : Bool → WorkloadType → String → WorkloadStatus → M (Option Err)
  finish needs_action rt id s = do
    s1 ← recheck needs_action rt id s
    s2 ← enrich_status env rt id s1
    store_status env s2

  -- The status after the recreated workload was started, or could not be.
  started_again : String → WorkloadStatus → Option String → M WorkloadStatus
  started_again id s (some e) =
      pure (record s { actual_state = failed; message = "start after recreate failed: " <> e })
  started_again id s none = do
    reset_retry_tracker id
    pure (
        drop_meta "last_error" (
          drop_meta "failure_reason" (
            drop_meta "next_retry_time" (
              drop_meta "retry_attempts"
                (record s { actual_state = running; message = "running" })))))

  -- After `Create`.
  created_again : Workload → WorkloadType → WorkloadStatus → Option String → M WorkloadStatus
  unfolding started_again
  created_again w rt s (some e) =
      pure (record s { actual_state = failed; message = "recreate failed: " <> e })
  created_again w rt s none =
      if wants_running w.desired_state
      then (do e ← act env (starts rt w.id); started_again w.id s e)
      else (do
        reset_retry_tracker w.id
        pure (record s { actual_state = stopped; message = "recreated and left stopped" }))

  unfoldable pub delete_and_create : Workload → WorkloadStatus → WorkloadType → M (Option Err)
  unfolding created_again
  delete_and_create w s rt = do
    act env (deletes rt w.id)
    e ← act env (creates rt w)
    s' ← created_again w rt s e
    finish true rt w.id s'

  -- The admission check before a recreation.
  on_availability : Workload → WorkloadStatus → WorkloadType → Availability → M (Option Err)
  unfolding joined
  on_availability w s rt available = delete_and_create w s rt
  on_availability w s rt (check_failed e) = do
    t ← now env
    let msg = "recreate admission check failed: " <> e
    store_status env (
        set_meta "last_error" msg
          (record s { actual_state = failed; message = msg; updated_at = t }))
  on_availability w s rt (short_of issues) = do
    t ← now env
    let msg = "recreate deferred due to resource constraints: " <> list_text issues
    store_status env (
        set_meta "resource_issues" (joined issues) (
          set_meta "last_error" msg (
            set_meta "failure_reason" (reason_text resource_quota_exceeded)
              (record s { actual_state = failed; message = msg; updated_at = t }))))

  unfoldable pub recreate : Workload → WorkloadStatus → WorkloadType → M (Option Err)
  unfolding on_availability
  recreate w s rt =
      if env.has_resource_monitor
      then (do a ← check_resources env; on_availability w s rt a)
      else delete_and_create w s rt

  -- After the failure was recorded: retried, if that is due by now, or halted.
  after_record :
      Workload
      → WorkloadStatus
      → WorkloadType
      → FailureReason
      → RetryTracker
      → Option Time
      → M (Option Err)
  unfolding unretried
  after_record w s rt reason tracker (some next) = do
    let s' = set_meta "next_retry_time" (env.format_time next) s
    t ← now env
    if can_retry_now tracker t then recreate w s' rt else store_status env s'
  after_record w s rt reason tracker none = do
    t ← now env
    store_status env (unretried reason tracker s t)

  record_and_retry : Workload → WorkloadStatus → WorkloadType → RetryTracker → M (Option Err)
  unfolding after_record
  record_and_retry w s rt tracker = do
    let reason = classify_error (some s.message)
    (tracker', result) ← record_retry_failure env w.id tracker reason s.message
    let s' = set_meta "last_error" s.message (
        set_meta "failure_reason" (reason_text reason)
          (set_meta "retry_attempts" (decimal (get_attempt_count tracker')) s))
    after_record w s' rt reason tracker' (retry_at result)

  -- A failed workload that is to run and is known to the runtime.
  unfoldable pub retry_failed : Workload → WorkloadStatus → WorkloadType → M (Option Err)
  unfolding record_and_retry deferred
  retry_failed w s rt = do
    tracker ← get_retry_tracker w.id
    t ← now env
    if ltb 0 (get_attempt_count tracker) && not (can_retry_now tracker t)
        then store_status env (deferred env.format_time tracker s)
        else record_and_retry w s rt tracker

  unfoldable pub reconcile_failed :
      Workload → WorkloadStatus → WorkloadType → Bool → String → M (Option Err)
  unfolding halted marked_missing
  reconcile_failed w s rt missing message =
      if is_retry_terminal s
      then (do t ← now env; store_status env (halted s t))
      else if missing
      then recreate w (marked_missing message s) rt
      else retry_failed w s rt

  -- The status after a start that failed, whether a retry is due at some time or not.
  start_failure :
      FailureReason → String → RetryTracker → Option Time → Time → WorkloadStatus → WorkloadStatus
  start_failure reason e tracker (some next) t s =
      let s1 = record s {
        actual_state = failed;
        message = "reconcile start failed: " <> e;
        updated_at = t;
      } in
      let s2 = set_meta "retry_attempts" (decimal (get_attempt_count tracker)) (
        set_meta "last_runtime_error" e
          (set_meta "last_error" s1.message (set_meta "failure_reason" (reason_text reason) s1))) in
      record (set_meta "next_retry_time" (env.format_time next) s2) {
        message =
            "reconcile start failed; retry scheduled at " <> env.format_time next <> ": " <> e;
      }
  start_failure reason e tracker none t s =
      let s1 = record s {
        actual_state = failed;
        message = "reconcile start failed: " <> e;
        updated_at = t;
      } in
      let s2 = set_meta "retry_attempts" (decimal (get_attempt_count tracker)) (
        set_meta "last_runtime_error" e
          (set_meta "last_error" s1.message (set_meta "failure_reason" (reason_text reason) s1))) in
      let s3 =
        mark_retry_terminal s2 tracker
          ("start failure is non-retryable (" <> reason_text reason <> ")") in
      drop_meta "next_retry_time" (record s3 {
        message = "reconcile start failed; retries halted (" <> reason_text reason <> "): " <> e;
      })

  start_failed : Workload → WorkloadStatus → RetryTracker → String → M (Option Err)
  unfolding start_failure
  start_failed w s tracker e = do
    let reason = classify_error (some e)
    (tracker', result) ← record_retry_failure env w.id tracker reason e
    t ← now env
    store_status env (start_failure reason e tracker' (retry_at result) t s)

  start_succeeded : Workload → WorkloadStatus → WorkloadType → M (Option Err)
  start_succeeded w s rt = do
    reset_retry_tracker w.id
    finish true rt w.id (
        drop_meta retry_terminal_reason_key (
          drop_meta retry_terminal_key (
            drop_meta "last_error" (
              drop_meta "failure_reason"
                (drop_meta "next_retry_time" (drop_meta "retry_attempts" s))))))

  deferred_start : RetryTracker → Time → WorkloadStatus → WorkloadStatus
  unfolding deferred
  deferred_start tracker t s =
      record (set_meta "failure_reason" (reason_text (classify_error (some s.message)))
        (deferred env.format_time tracker s)) {
          updated_at = t;
          message = "reconcile start deferred until " <> env.format_time tracker.next_retry_time;
        }

  -- A workload that is to run and does not.
  unfoldable pub reconcile_start : Workload → WorkloadStatus → WorkloadType → M (Option Err)
  unfolding halted start_failed start_succeeded deferred_start
  reconcile_start w s rt = do
    tracker ← get_retry_tracker w.id
    if is_retry_terminal s then (do t ← now env; store_status env (halted s t)) else (do
      t ← now env
      if ltb 0 (get_attempt_count tracker) && not (can_retry_now tracker t)
          then (do u ← now env; store_status env (deferred_start tracker u s))
          else (do
            e ← act env (starts rt w.id)
            on_error e (start_succeeded w s rt) (λ e. start_failed w s tracker e)))

  after_stop : Option String → WorkloadStatus → WorkloadStatus
  after_stop none s = s
  after_stop (some e) s = record s {
    actual_state = failed;
    message = "reconcile stop failed: " <> e;
  }

  unfoldable pub reconcile_stop : Workload → WorkloadStatus → WorkloadType → M (Option Err)
  unfolding after_stop
  reconcile_stop w s rt = do e ← act env (stops rt w.id); finish true rt w.id (after_stop e s)

  after_handling : Workload → WorkloadStatus → WorkloadType → Handling → M (Option Err)
  after_handling w s rt (handled e) = pure e
  after_handling w s rt not_handled = finish false rt w.id s

  unfoldable pub reconcile_pending : Workload → WorkloadStatus → WorkloadType → M (Option Err)
  unfolding after_handling
  reconcile_pending w s rt =
      if wants_running w.desired_state
      then (do h ← handle_pending_recovery env w s rt; after_handling w s rt h)
      else finish false rt w.id s

  -- The choice of the branch, by the desired and the actual state.
  unfoldable pub reconcile_by_state :
      Workload → WorkloadStatus → WorkloadType → ActualState → String → M (Option Err)
  reconcile_by_state w s rt actual message =
      let missing = is_unknown actual && is_runtime_missing message in
      if is_pending actual
      then reconcile_pending w s rt
      else if is_unknown actual && not missing
      then finish false rt w.id s
      else if wants_running w.desired_state && (is_failed actual || missing)
      then reconcile_failed w s rt missing message
      else if wants_running w.desired_state && not (is_running actual)
      then reconcile_start w s rt
      else if wants_stopped w.desired_state && is_running actual
      then reconcile_stop w s rt
      else finish false rt w.id s

  -- A workload that is to be stopped has no retry state.
  forget_retries : Workload → WorkloadStatus → M WorkloadStatus
  forget_retries w s =
      if wants_stopped w.desired_state
      then (do reset_retry_tracker w.id; pure (clear_retry_state_metadata s))
      else pure s

  observed : Workload → WorkloadStatus → WorkloadType → ActualState × String → M (Option Err)
  unfolding forget_retries
  observed w s rt (actual, message) = do
    t ← now env
    s' ← forget_retries w (record s { actual_state = actual; message = message; updated_at = t })
    reconcile_by_state w s' rt actual message

  unobserved : WorkloadStatus → String → M (Option Err)
  unobserved s e = do
    t ← now env
    store_status env (record s {
      actual_state = failed;
      message = "runtime status failed: " <> e;
      updated_at = t;
    })

  -- From the workload, its status and its runtime on.
  unfoldable pub reconcile_loaded : Workload → WorkloadStatus → WorkloadType → M (Option Err)
  unfolding observed unobserved
  reconcile_loaded w s rt = do
    r ← read_status env rt w.id
    on_result r (λ a. observed w s rt (normalize_state_for_desired w.desired_state a.0 a.1))
        (λ e. unobserved s (error_text e))

  unfoldable pub reconcile_workload : String → M (Option Err)
  reconcile_workload id = do
    rw ← get_workload env id
    on_result rw
        (λ w. do
          rs ← get_status env id
          on_result rs
              (λ s.
                on_result (get_runtime env w.kind) (λ rt. reconcile_loaded w s rt)
                  (λ e. pure (some (plain ("runtime not available: " <> error_text e)))))
              (λ e. pure (some (plain ("status not found: " <> error_text e)))))
        (λ e. pure (some (plain ("workload not found: " <> error_text e))))

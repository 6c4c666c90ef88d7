-- ===== src/Workload/Apply.antt =====
-- internal/workload/manager.go: `ApplyWorkload` and `applyDesiredStateTransition`.
pub mod Fresh
pub mod Idempotence
use compute_agent.Base.{
  ℕ, String, ◌<>◌, Bool, true, false, not, ◌&&◌, ◌||◌, Option, none, some, List, [], ◌∷◌, ◌++◌,
  str_eq, codes, lower_codes, has_infix, is_empty, if◌then◌else◌,
}
use compute_agent.Models.{
  Time, zero_time, WorkloadType, DesiredState, desired_running, desired_stopped, other_desired,
  ActualState, pending, failed, unknown, wants_running, wants_stopped, is_pending, is_running,
  is_failed, is_unknown, Workload, WorkloadStatus,
}
use compute_agent.Errors.{
  Err, plain, workload_error, error_text, Result, ok, err, new_workload_error, with_detail, text,
  texts, list_text, start_failed, create_failed, resource_quota_exceeded, volume_mount_failed,
}
use compute_agent.Workload.World.{
  Env, M, pure, ◌>>=◌, ◌>>◌, on_result, on_error, now, act, creates, starts, stops, deletes,
  get_workload, get_status, get_runtime, save_workload, save_status, read_status, check_resources,
  Availability, check_failed, available, short_of, reset_retry_tracker, type_text,
}
use compute_agent.Workload.Status.{
  set_meta, fresh_status, is_runtime_missing, normalize_state_for_desired,
  clear_retry_state_metadata, enrich_status, persist_failed_status,
  persist_managed_storage_failure_status, annotate_failure_reason, failure_reason_code,
}
use compute_agent.Workload.Storage.{Allocation, prepare_managed_storage, cleanup_allocations}

-- What `ApplyWorkload` returns: a status and whether the apply was skipped, an error, or both a
-- status and an error.
pub data Outcome : Type 0 where
  applied : WorkloadStatus → Bool → Outcome
  rejected : Err → Outcome
  unsaved : WorkloadStatus → Err → Outcome

abbrev pub same_desired : DesiredState → DesiredState → Bool
same_desired desired_running desired_running = true
same_desired desired_stopped desired_stopped = true
same_desired (other_desired a) (other_desired b) = str_eq a b
same_desired _ _ = false

-- `missingFromRuntime`
unfoldable pub missing_from_runtime : WorkloadStatus → Bool
missing_from_runtime s = is_unknown s.actual_state && is_runtime_missing s.message

-- `desiredNeedsAction`
unfoldable pub needs_action : Workload → Workload → WorkloadStatus → Bool
needs_action existing w s =
    not (same_desired existing.desired_state w.desired_state)
    || wants_running w.desired_state
      && (not (is_running s.actual_state) && not (missing_from_runtime s))
    || wants_stopped w.desired_state && (is_running s.actual_state || is_pending s.actual_state)

module _ (env : Env) where
  -- The end of a transition: what the runtime reports is normalised and saved.
  abbrev observed_or_unknown : Result (ActualState × String) → ActualState × String
  observed_or_unknown (ok a) = a
  observed_or_unknown (err e) = (unknown, "status check failed: " <> error_text e)

  abbrev cleared_if_stopped : Workload → WorkloadStatus → WorkloadStatus
  cleared_if_stopped w s = if wants_stopped w.desired_state then clear_retry_state_metadata s else s

  finish_transition : Workload → WorkloadType → WorkloadStatus → M (Result WorkloadStatus)
  finish_transition w rt s = do
    r ← read_status env rt w.id
    let seen = observed_or_unknown r
    let normal = normalize_state_for_desired w.desired_state seen.0 seen.1
    t ← now env
    s' ← enrich_status env rt w.id (
        cleared_if_stopped w
          (record s { actual_state = normal.0; message = normal.1; updated_at = t }))
    (e, s'') ← save_status env s'
    on_error e (do reset_retry_tracker w.id; pure (ok s''))
        (λ e. pure (err (plain ("failed to save status: " <> error_text e))))

  -- A failure of the transition that is written into the status.
  save_transition_failure :
      WorkloadStatus → Time → String → String → Err → M (Result WorkloadStatus)
  save_transition_failure s t message last_error e = do
    saved ← save_status env (
        set_meta "last_error" last_error
          (record s { actual_state = failed; message = message; updated_at = t }))
    pure (err e)

  start_in_transition : Workload → WorkloadType → WorkloadStatus → M (Result WorkloadStatus)
  unfolding finish_transition
  start_in_transition w rt s = do
    e ← act env (starts rt w.id)
    on_error e (finish_transition w rt s) (λ e. do
      persist_failed_status env w ("start failed: " <> e) (some e)
      pure (
          err (
            workload_error (
              new_workload_error start_failed "Failed to start workload" w.id (type_text w.kind)
                (some e)))))

  stop_in_transition : Workload → WorkloadType → WorkloadStatus → M (Result WorkloadStatus)
  unfolding finish_transition save_transition_failure
  stop_in_transition w rt s = do
    e ← act env (stops rt w.id)
    on_error e (finish_transition w rt s) (λ e. do
      t ← now env
      save_transition_failure s t ("stop failed: " <> e) e
          (plain ("failed to stop workload: " <> e)))

  transition_from :
      Workload → WorkloadType → WorkloadStatus → ActualState → M (Result WorkloadStatus)
  unfolding start_in_transition stop_in_transition
  transition_from w rt s actual =
      if wants_running w.desired_state && not (is_running actual)
      then start_in_transition w rt s
      else if wants_stopped w.desired_state && (is_running actual || is_pending actual)
      then stop_in_transition w rt s
      else finish_transition w rt s

  transition_with : Workload → WorkloadStatus → WorkloadType → M (Result WorkloadStatus)
  unfolding transition_from
  transition_with w s rt = do
    t ← now env
    let s' = record s {
      kind = w.kind;
      revision_id = w.revision_id;
      desired_state = w.desired_state;
    }
    r ← read_status env rt w.id
    on_result r
        (λ a. transition_from w rt s' (normalize_state_for_desired w.desired_state a.0 a.1).0)
        (λ e. do
          let message = "runtime status failed: " <> error_text e
          save_transition_failure s' t message message
              (plain ("runtime status check failed: " <> error_text e)))

  -- `applyDesiredStateTransition`; its status is never nil.
  unfoldable pub apply_desired_state_transition :
      Workload → WorkloadStatus → M (Result WorkloadStatus)
  unfolding transition_with
  apply_desired_state_transition w s =
      on_result (get_runtime env w.kind) (λ rt. transition_with w s rt)
        (λ e. pure (err (plain ("runtime not available: " <> error_text e))))

  -- The end of an apply that created the workload.
  finish_apply : Workload → WorkloadType → M Outcome
  finish_apply w rt = do
    r ← read_status env rt w.id
    let seen = observed_or_unknown r
    t ← now env
    u ← now env
    s ← enrich_status env rt w.id (fresh_status w seen.0 seen.1 t u)
    (e, s') ← save_status env s
    on_error e (do reset_retry_tracker w.id; pure (applied s' false))
        (λ e. pure (unsaved s' (plain ("failed to save status: " <> error_text e))))

  -- `Start` failed: the volumes are taken back and the failure is stored.
  abandon_start : Workload → List Allocation → String → M Outcome
  abandon_start w allocations e = do
    cleanup_allocations env allocations true
    persist_failed_status env w ("start failed: " <> e) (some e)
    annotate_failure_reason env w.id (failure_reason_code (some e)) e
    pure (
        rejected (
          workload_error (
            with_detail
              (with_detail
                (new_workload_error start_failed "Failed to start workload" w.id (type_text w.kind)
                  (some e))
                "type" (text (type_text w.kind)))
              "revision" (text w.revision_id))))

  abandon_create : Workload → List Allocation → String → M Outcome
  abandon_create w allocations e = do
    cleanup_allocations env allocations true
    persist_failed_status env w ("create failed: " <> e) (some e)
    annotate_failure_reason env w.id (failure_reason_code (some e)) e
    pure (
        rejected (
          workload_error (
            with_detail
              (with_detail
                (new_workload_error create_failed "Failed to create workload in runtime" w.id
                  (type_text w.kind) (some e))
                "type" (text (type_text w.kind)))
              "revision" (text w.revision_id))))

  start_created : Workload → WorkloadType → List Allocation → M Outcome
  unfolding finish_apply abandon_start
  start_created w rt allocations =
      if wants_running w.desired_state
      then (do
        e ← act env (starts rt w.id)
        on_error e (finish_apply w rt) (λ e. abandon_start w allocations e))
      else finish_apply w rt

  create_prepared : Workload → WorkloadType → List Allocation → M Outcome
  unfolding start_created abandon_create
  create_prepared w rt allocations = do
    e ← act env (creates rt w)
    on_error e (start_created w rt allocations) (λ e. abandon_create w allocations e)

  -- With volumes the workload is saved once more, now with their mounts.
  save_prepared : WorkloadType → Workload × List Allocation → M Outcome
  unfolding create_prepared
  save_prepared rt (w, allocations) =
      if is_empty allocations then create_prepared w rt allocations else (do
        (e, w') ← save_workload env w
        on_error e (create_prepared w' rt allocations) (λ e. do
          cleanup_allocations env allocations true
          pure (
              rejected (
                plain (
                  "failed to persist workload with managed volume attachments: "
                  <> error_text e)))))

  reject_storage : Workload → Err → M Outcome
  reject_storage w e = do
    let reason =
        if has_infix (lower_codes (error_text e)) (codes "attach")
        then "STORAGE_ATTACH_FAILED"
        else "STORAGE_PROVISION_FAILED"
    persist_managed_storage_failure_status env w reason
        ("managed storage setup failed: " <> error_text e) (some (error_text e))
    pure (
        rejected (
          workload_error (
            with_detail
              (new_workload_error volume_mount_failed "Failed to setup managed storage for workload"
                w.id (type_text w.kind) (some (error_text e)))
              "failure_reason" (text reason))))

  -- From the first save of the workload on.
  save_and_create : Workload → WorkloadType → M Outcome
  unfolding save_prepared reject_storage
  save_and_create w rt = do
    (e, w') ← save_workload env w
    on_error e
        (do
          t ← now env
          u ← now env
          initial ← save_status env (fresh_status w' pending "creating workload" t u)
          r ← prepare_managed_storage env w'
          on_result r (λ prepared. save_prepared rt prepared) (λ e. reject_storage w' e))
        (λ e. pure (rejected (plain ("failed to save workload: " <> error_text e))))

  abbrev is_old_revision : Option Workload → Workload → Bool
  is_old_revision none w = false
  is_old_revision (some existing) w = not (str_eq existing.revision_id w.revision_id)

  -- After admission: a workload of another revision goes first.
  replace_and_create : Option Workload → Workload → WorkloadType → M Outcome
  unfolding save_and_create
  replace_and_create existing w rt =
      if is_old_revision existing w
      then (do e ← act env (deletes rt w.id); save_and_create w rt)
      else save_and_create w rt

  -- The answer of the resource monitor.
  admit : Option Workload → Workload → WorkloadType → Availability → M Outcome
  unfolding replace_and_create
  admit existing w rt available = replace_and_create existing w rt
  admit existing w rt (check_failed e) =
      pure (rejected (plain ("failed to validate resource availability: " <> e)))
  admit existing w rt (short_of issues) = do
    (e, w') ← save_workload env w
    persist_failed_status env w'
        ("admission rejected due to resource constraints: " <> list_text issues) none
    pure (
        rejected (
          workload_error (
            with_detail
              (with_detail
                (new_workload_error resource_quota_exceeded
                  "Insufficient system resources to admit workload" w.id (type_text w.kind) none)
                "issues" (texts issues))
              "revision" (text w.revision_id))))

  unfoldable pub create_workload : Option Workload → Workload → M Outcome
  unfolding admit
  create_workload existing w =
      on_result (get_runtime env w.kind)
        (λ rt.
          if env.has_resource_monitor
          then (do a ← check_resources env; admit existing w rt a)
          else replace_and_create existing w rt)
        (λ e. pure (rejected (plain ("runtime not available: " <> error_text e))))

  pub transition_or_reject : Workload → WorkloadStatus → M Outcome
  transition_or_reject existing s = do
    r ← apply_desired_state_transition existing s
    on_result r (λ s'. pure (applied s' false)) (λ e. pure (rejected e))

  -- The stored workload has the revision that is applied, and this status.
  unfoldable pub reapply : Workload → Workload → WorkloadStatus → M Outcome
  unfolding transition_or_reject
  reapply existing w s =
      if not (is_failed s.actual_state) && not (missing_from_runtime s)
      then (if needs_action existing w s
          then (do
            t ← now env
            (e, existing') ←
                save_workload env
                  (record existing { desired_state = w.desired_state; updated_at = t })
            on_error e (transition_or_reject existing' s) (λ e. pure (
                rejected (plain ("failed to persist desired state transition: " <> error_text e)))))
          else pure (applied s true))
      else create_workload (some existing) w

  -- The stored workload has the revision that is applied.
  same_revision : Workload → Workload → M Outcome
  same_revision existing w = do
    r ← get_status env w.id
    on_result r (λ s. reapply existing w s)
        (λ _.
          if same_desired existing.desired_state w.desired_state
          then pure (applied (fresh_status w unknown "status not found" zero_time zero_time) true)
          else (do
            t ← now env
            u ← now env
            reapply existing w (record (fresh_status w unknown "status not found" t u) {
              desired_state = existing.desired_state;
            })))

  -- `ApplyWorkload`
  unfoldable pub apply_workload : Workload → M Outcome
  unfolding same_revision
  apply_workload w = do
    r ← get_workload env w.id
    on_result r
        (λ existing.
          if str_eq existing.revision_id w.revision_id
          then same_revision existing w
          else create_workload (some existing) w)
        (λ _. create_workload none w)

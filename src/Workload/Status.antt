-- ===== src/Workload/Status.antt =====
-- internal/workload/manager.go, lines 125 to 290: the helpers that read and write a status.
use compute_agent.Base.{
  ℕ, String, ◌<>◌, Bool, true, false, ◌&&◌, ◌||◌, Option, none, some, List, [], ◌∷◌, ◌==◌, codes,
  lower_codes, has_infix, trim_space, is_blank, decimal, if◌then◌else◌,
}
use compute_agent.Base.Dict
use compute_agent.Base.Dict.{Dict}
use compute_agent.Models.{
  Time, zero_time, DesiredState, ActualState, stopped, failed, wants_stopped, is_failed, Workload,
  WorkloadStatus, WorkloadType,
}
use compute_agent.Retry.Tracker.{RetryTracker, get_attempt_count}
use compute_agent.Workload.World.{
  Env, M, pure, ◌>>=◌, ◌>>◌, on_result, now, get_status, save_status, read_metadata,
}

abbrev pub pending_since_key : String
pending_since_key = "pending_since"

abbrev pub pending_recovery_action_key : String
pending_recovery_action_key = "pending_recovery_action"

abbrev pub pending_recovery_reason_key : String
pending_recovery_reason_key = "pending_recovery_reason"

abbrev pub pending_recovery_deleted_key : String
pending_recovery_deleted_key = "pending_recovery_deleted"

abbrev pub retry_terminal_key : String
retry_terminal_key = "retry_terminal"

abbrev pub retry_terminal_reason_key : String
retry_terminal_reason_key = "retry_terminal_reason"

-- A missing key reads as the empty text.
abbrev pub or_empty : Option String → String
or_empty none = ""
or_empty (some s) = s

-- `status.Metadata[key]`
abbrev pub meta : String → WorkloadStatus → String
meta key s = or_empty (Dict.get key s.metadata)

-- `ensureMetadata(status); status.Metadata[key] = value`
abbrev pub set_meta : String → String → WorkloadStatus → WorkloadStatus
set_meta key value s = record s { metadata = Dict.put key value s.metadata }

-- `delete(status.Metadata, key)`
abbrev pub drop_meta : String → WorkloadStatus → WorkloadStatus
drop_meta key s = record s { metadata = Dict.remove key s.metadata }

unfoldable pub same_codes : List ℕ → List ℕ → Bool
same_codes [] [] = true
same_codes (c ∷ cs) (d ∷ ds) = c == d && same_codes cs ds
same_codes _ _ = false

-- `strings.EqualFold`
unfoldable pub equal_fold : String → String → Bool
unfolding same_codes lower_codes
equal_fold a b = same_codes (lower_codes a) (lower_codes b)

unfoldable pub is_retry_terminal : WorkloadStatus → Bool
unfolding equal_fold
is_retry_terminal s = equal_fold (trim_space (meta retry_terminal_key s)) "true"

unfoldable pub mark_retry_terminal : WorkloadStatus → RetryTracker → String → WorkloadStatus
mark_retry_terminal s tracker reason =
    set_meta "retry_attempts" (decimal (get_attempt_count tracker)) (
      set_meta retry_terminal_reason_key (trim_space reason) (set_meta retry_terminal_key "true" s))

unfoldable pub is_runtime_missing : String → Bool
is_runtime_missing message =
    let msg = lower_codes message in
    has_infix msg (codes "not found")
    || has_infix msg (codes "no such")
    || has_infix msg (codes "does not exist")

stopped_message : String → String
stopped_message msg =
    if is_blank msg then "stopped" else "stopped (previous runtime error: " <> msg <> ")"

unfoldable pub normalize_state_for_desired :
    DesiredState → ActualState → String → ActualState × String
unfolding stopped_message
normalize_state_for_desired desired actual message =
    if wants_stopped desired && is_failed actual
    then (stopped, stopped_message (trim_space message))
    else (actual, message)

unfoldable pub clear_retry_state_metadata : WorkloadStatus → WorkloadStatus
clear_retry_state_metadata s = drop_meta retry_terminal_reason_key (
    drop_meta retry_terminal_key (
      drop_meta "last_error"
        (drop_meta "failure_reason" (drop_meta "next_retry_time" (drop_meta "retry_attempts" s)))))

-- The status of a workload that has none in the store.
unfoldable pub fresh_status : Workload → ActualState → String → Time → Time → WorkloadStatus
fresh_status w actual message created updated = record {
  id = w.id;
  kind = w.kind;
  revision_id = w.revision_id;
  desired_state = w.desired_state;
  actual_state = actual;
  message = message;
  created_at = created;
  updated_at = updated;
  metadata = [];
  usage = none;
}

unfoldable pub set_error_meta : String → Option String → WorkloadStatus → WorkloadStatus
set_error_meta key none s = s
set_error_meta key (some e) s = set_meta key e s

-- `failureReasonCodeFromRuntimeError`
unfoldable pub failure_reason_code : Option String → String
failure_reason_code none = ""
failure_reason_code (some e) =
    if has_infix (lower_codes e) (codes "cloud-init-invalid") then "CLOUD_INIT_INVALID" else ""

-- `for k, v := range metadata { status.Metadata[k] = v }`
merge_meta : Dict String → WorkloadStatus → WorkloadStatus
merge_meta [] s = s
merge_meta ((k, v) ∷ m) s = merge_meta m (set_meta k v s)

module _ (env : Env) where
  -- The rewriting of `failedStatus` in `persistFailedStatus`, and its save.
  save_failed : Workload → String → Option String → WorkloadStatus → M (Unit {0})
  unfolding set_error_meta
  save_failed w message e s = do
    t ← now env
    stamp ← now env
    save_status env (
        set_error_meta "last_error" e (
          set_meta "last_failure_at" (env.format_time stamp) (record s {
            kind = w.kind;
            revision_id = w.revision_id;
            desired_state = w.desired_state;
            actual_state = failed;
            message = message;
            updated_at = t;
          })))
    pure tt

  unfoldable pub persist_failed_status : Workload → String → Option String → M (Unit {0})
  unfolding save_failed fresh_status
  persist_failed_status w message e = do
    r ← get_status env w.id
    on_result r (λ s. save_failed w message e s)
        (λ _. do t ← now env; save_failed w message e (fresh_status w failed "" t zero_time))

  save_storage_failure : String → String → Option String → WorkloadStatus → M (Unit {0})
  unfolding set_error_meta
  save_storage_failure code message e s = do
    t ← now env
    save_status env (
        set_error_meta "last_error" e (
          set_meta "failure_message" (trim_space message) (
            set_meta "failure_reason" (trim_space code)
              (record s { actual_state = failed; message = trim_space message; updated_at = t }))))
    pure tt

  unfoldable pub persist_managed_storage_failure_status :
      Workload → String → String → Option String → M (Unit {0})
  unfolding save_storage_failure fresh_status
  persist_managed_storage_failure_status w code message e = do
    r ← get_status env w.id
    on_result r (λ s. save_storage_failure code message e s)
        (λ _. do
          t ← now env
          u ← now env
          save_storage_failure code message e (fresh_status w failed "" t u))

  save_annotation : String → String → WorkloadStatus → M (Unit {0})
  save_annotation code message s = do
    let s' = set_meta "failure_reason" (trim_space code) s
    save_status env (
        if is_blank (trim_space message)
        then s'
        else set_meta "failure_message" (trim_space message) s')
    pure tt

  unfoldable pub annotate_failure_reason : String → String → String → M (Unit {0})
  unfolding save_annotation
  annotate_failure_reason id code message =
      if is_blank (trim_space id) || is_blank (trim_space code) then pure tt else (do
        r ← get_status env id
        on_result r (λ s. save_annotation code message s) (λ _. pure tt))

  unfoldable pub enrich_status : WorkloadType → String → WorkloadStatus → M WorkloadStatus
  unfolding merge_meta
  enrich_status rt id s =
      if env.provides_metadata rt
      then (do r ← read_metadata env rt id; on_result r (λ m. pure (merge_meta m s)) (λ _. pure s))
      else pure s

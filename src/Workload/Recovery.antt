-- ===== src/Workload/Recovery.antt =====
-- internal/workload/manager.go, `handlePendingRecovery`: a workload that stays pending is restarted,
-- and given up if the restart fails.
use compute_agent.Base.{String, ◌<>◌, Option, none, some, trim_space, is_blank, if◌then◌else◌}
use compute_agent.Base.Int.{ltb_ℤ}
use compute_agent.Models.{Time, WorkloadType, desired_stopped, failed, Workload, WorkloadStatus}
use compute_agent.Clock.{Duration, seconds, sub_time}
use compute_agent.Errors.{Err}
use compute_agent.Workload.World.{
  Env, M, pure, ◌>>=◌, ◌>>◌, on_error, now, save_workload, store_status, act, stops, starts,
  deletes,
}
use compute_agent.Workload.Status.{
  meta, set_meta, pending_since_key, pending_recovery_action_key, pending_recovery_reason_key,
  pending_recovery_deleted_key,
}

abbrev pub default_pending_recovery_threshold : Duration
default_pending_recovery_threshold = seconds 300

-- `%s` of the threshold.
abbrev threshold_text : String
threshold_text = "5m0s"

abbrev time_or : Option Time → Time → Time
time_or none t = t
time_or (some u) t = u

-- Handled, with the error of the save; or not handled.
pub data Handling : Type 0 where
  handled : Option Err → Handling
  not_handled : Handling

give_up_message : String → Option String → String
give_up_message start_error none =
    "pending timeout exceeded; restart failed (" <> start_error
    <> "); workload deleted from runtime"
give_up_message start_error (some delete_error) =
    "pending timeout exceeded; restart failed (" <> start_error <> "); delete also failed ("
    <> delete_error <> "); manual intervention required"

set_delete_error : Option String → WorkloadStatus → WorkloadStatus
set_delete_error none s = s
set_delete_error (some e) s = set_meta "last_delete_error" e s

module _ (env : Env) where
  -- When the status says that the workload became pending; a text that does not parse says nothing.
  unfoldable pub pending_since : Time → WorkloadStatus → Time
  pending_since t s =
      let raw = trim_space (meta pending_since_key s) in
      if is_blank raw then t else time_or (env.parse_time raw) t

  -- The restart failed: the workload is deleted from its runtime and is to stay stopped.
  unfoldable pub give_up : Workload → WorkloadStatus → WorkloadType → Time → String → M Handling
  unfolding give_up_message set_delete_error
  give_up w s rt t start_error = do
    delete_error ← act env (deletes rt w.id)
    let s1 = set_meta "last_error" ("pending recovery restart failed: " <> start_error) (
        set_meta pending_recovery_deleted_key "true"
          (record s { actual_state = failed; updated_at = t }))
    let s2 = set_delete_error delete_error s1
    save_workload env (record w { desired_state = desired_stopped })
    e ← store_status env (record s2 { message = give_up_message start_error delete_error })
    pure (handled e)

  restarted : WorkloadStatus → Time → M Handling
  restarted s t = do
    e ← store_status env (record (set_meta pending_since_key (env.format_utc t) s) {
      message = "recovered from prolonged pending via restart";
      updated_at = t;
    })
    pure (handled e)

  unfoldable pub restart : Workload → WorkloadStatus → WorkloadType → Time → M Handling
  unfolding restarted
  restart w s rt t = do
    let s' =
        set_meta pending_recovery_reason_key ("pending for more than " <> threshold_text)
          (set_meta pending_recovery_action_key "restart" s)
    act env (stops rt w.id)
    start_error ← act env (starts rt w.id)
    on_error start_error (restarted s' t) (λ e. give_up w s' rt t e)

  unfoldable pub handle_pending_recovery : Workload → WorkloadStatus → WorkloadType → M Handling
  unfolding pending_since
  handle_pending_recovery w s rt = do
    t ← now env
    if is_blank (meta pending_since_key s)
        then (do
          e ← store_status env (record (set_meta pending_since_key (env.format_utc t) s) {
            message = "workload pending; waiting for startup completion";
            updated_at = t;
          })
          pure (handled e))
        else (if ltb_ℤ (sub_time t (pending_since t s)) default_pending_recovery_threshold
            then pure not_handled
            else restart w s rt t)

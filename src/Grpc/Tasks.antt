-- ===== src/Grpc/Tasks.antt =====
-- internal/grpc/server.go, lines 397 to 455: what the queue tells of a workload's latest task.
pub mod Latest
use compute_agent.Base.{
  String, Bool, true, ◌||◌, ◌&&◌, Option, none, some, List, [], ◌∷◌, str_eq, is_blank, trim_space,
  if◌then◌else◌,
}
use compute_agent.Base.Int.{ℤ, pos}
use compute_agent.Base.Dict
use compute_agent.Models.{Time}
use compute_agent.Clock.{is_after}
use compute_agent.TaskQueue.{
  TaskStatus, pending, running, completed, failed, TaskSnapshot, Queue, list_task_snapshots,
}
use compute_agent.Workload.World.{Env, M, pure, ◌>>=◌, now}
use compute_agent.Grpc.Convert.{unix}
use compute_agent.Grpc.Messages.{
  type_unspecified, desired_unspecified, ActualState, actual_pending, actual_failed, WorkloadStatus,
}

-- The text of the constant.
unfoldable pub status_text : TaskStatus → String
status_text pending = "pending"
status_text running = "running"
status_text completed = "completed"
status_text failed = "failed"

-- `latest == nil || snap.CreatedAt.After(latest.CreatedAt)`
abbrev pub is_newer : TaskSnapshot → Option TaskSnapshot → Bool
is_newer s none = true
is_newer s (some best) = is_after s.created_at best.created_at

abbrev pub later_of : String → Option TaskSnapshot → TaskSnapshot → Option TaskSnapshot
later_of id best s = if str_eq s.workload_id id && is_newer s best then some s else best

-- The loop that looks for the workload's latest task.
unfoldable pub latest : String → Option TaskSnapshot → List TaskSnapshot → Option TaskSnapshot
latest id best [] = best
latest id best (s ∷ ss) = latest id (later_of id best s) ss

-- A status with a task's identifier and state, at a reading of the clock in Unix seconds.
unfoldable pub task_status : String → ActualState → String → String → String → ℤ → WorkloadStatus
task_status id actual message task_id state updated = record {
  id = id;
  kind = type_unspecified;
  revision_id = "";
  desired_state = desired_unspecified;
  actual_state = actual;
  message = message;
  created_at = pos 0;
  updated_at = updated;
  metadata = Dict.put "task_status" state (("task_id", task_id) ∷ []);
  usage = none;
}

-- The state and the message that a task of this status gives its workload.
unfoldable pub task_report : TaskSnapshot → TaskStatus → Option (ActualState × String)
task_report s pending = some (actual_pending, "task pending execution")
task_report s running = some (actual_pending, "task running")
task_report s failed = some (actual_failed, trim_space s.error)
task_report s completed = none

module _ (env : Env) where
  reported : String → TaskSnapshot → Option (ActualState × String) → M (Option WorkloadStatus)
  unfolding task_status unix status_text
  reported id s none = pure none
  reported id s (some (actual, message)) = do
    t ← now env
    pure (some (task_status id actual message s.id (status_text s.status) (unix t)))

  report_latest : String → Option TaskSnapshot → M (Option WorkloadStatus)
  unfolding reported task_report
  report_latest id none = pure none
  report_latest id (some s) = reported id s (task_report s s.status)

  -- `pendingStatusFromTasks`
  unfoldable pub pending_status : String → Option Queue → M (Option WorkloadStatus)
  unfolding report_latest latest
  pending_status id none = pure none
  pending_status id (some q) =
      if is_blank (trim_space id)
      then pure none
      else report_latest id (latest id none (list_task_snapshots none q))

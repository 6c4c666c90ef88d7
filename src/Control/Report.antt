-- ===== src/Control/Report.antt =====
-- internal/control/client.go, lines 401 to 443 and 525 to 614: what a heartbeat says of the node's
-- workloads.
use compute_agent.Base.{
  String, Bool, not, ◌&&◌, Option, none, some, List, [], ◌∷◌, is_blank, trim_space, codes,
  lower_codes, if◌then◌else◌,
}
use compute_agent.Models
use compute_agent.Models.{Time, zero_time, is_zero_time, ActualState, WorkloadUsage}
use compute_agent.Workload.World.{Env, M, pure, ◌>>=◌, on_result, now}
use compute_agent.Workload.Status.{same_codes, equal_fold, meta}
use compute_agent.Workload.Lifecycle.{list_current, state_text}
use compute_agent.Control.Messages.{
  FailureReason, reason_unspecified, runtime_error, ReasonDetail, WorkloadUsageSnapshot,
  WorkloadStatus,
}

-- `normalizedState`
unfoldable pub normalized_state : String → String
normalized_state state =
    let s = lower_codes (trim_space state) in
    if is_blank state
    then "Unknown"
    else if same_codes s (codes "running")
    then "Running"
    else if same_codes s (codes "stopped")
    then "Stopped"
    else if same_codes s (codes "failed")
    then "Failed"
    else if same_codes s (codes "pending")
    then "Pending"
    else "Unknown"

-- `mapFailureReason`
unfoldable pub map_failure_reason : Models.WorkloadStatus → FailureReason
map_failure_reason s =
    if equal_fold (state_text s.actual_state) "failed" then runtime_error else reason_unspecified

module _ (env : Env) where
  -- `nonZeroTime`
  unfoldable pub non_zero_time : Time → M Time
  non_zero_time t = if is_zero_time t then now env else pure t

  -- The instant of the next retry, the zero time if there is none to read.
  next_retry : String → Time
  next_retry raw = elim (env.parse_time raw) [ none ↦ zero_time | some t ↦ t ]

  abbrev instant : Time → Option Time
  instant t = if is_zero_time t then none else some t

  detail : String → String → Bool → Time → Time → M (Option ReasonDetail)
  unfolding non_zero_time
  detail code message retryable retry updated =
      if is_blank code && is_blank message && is_zero_time retry && not retryable
      then pure none
      else (do
        t ← non_zero_time updated
        pure (
            some (record {
              code = code;
              message = message;
              last_transition = t;
              next_retry_at = instant retry;
              retryable = retryable;
            })))

  -- `reasonDetail`
  unfoldable pub reason_detail : Models.WorkloadStatus → M (Option ReasonDetail)
  unfolding next_retry detail
  reason_detail s =
      let raw = trim_space (meta "retry_next_at" s) in
      detail (trim_space (meta "failure_reason" s)) (trim_space (meta "failure_message" s))
        (equal_fold (trim_space (meta "retryable" s)) "true")
        (if is_blank raw then zero_time else next_retry raw) s.updated_at

  -- When a usage was collected.
  collected : Time → Time → M Time
  unfolding non_zero_time
  collected t updated = if is_zero_time t then non_zero_time updated else pure t

  snapshot_of : Models.WorkloadStatus → Option WorkloadUsage → M (Option WorkloadUsageSnapshot)
  unfolding collected
  snapshot_of s none = pure none
  snapshot_of s (some u) = do
    t ← collected u.collected_at s.updated_at
    pure (
        some (record {
          workload_id = trim_space s.id;
          kind = trim_space u.kind;
          cpu_percent = u.cpu_percent;
          memory_bytes = u.memory_bytes;
          disk_read_bytes = u.disk_read_bytes;
          disk_write_bytes = u.disk_write_bytes;
          net_rx_bytes = u.net_rx_bytes;
          net_tx_bytes = u.net_tx_bytes;
          collected_at = t;
          source = trim_space u.source;
        }))

  -- `usageSnapshot`
  unfoldable pub usage_snapshot : Models.WorkloadStatus → M (Option WorkloadUsageSnapshot)
  unfolding snapshot_of
  usage_snapshot s = snapshot_of s s.usage

  -- One turn of the loop of `workloadStatuses`.
  unfoldable pub report : Models.WorkloadStatus → M WorkloadStatus
  unfolding non_zero_time reason_detail usage_snapshot
  report s = do
    t ← non_zero_time s.updated_at
    reason ← reason_detail s
    usage ← usage_snapshot s
    pure (record {
      workload_id = s.id;
      state = normalized_state (state_text s.actual_state);
      failure_reason = map_failure_reason s;
      message = s.message;
      last_transition = t;
      reason = reason;
      usage = usage;
    })

  unfoldable pub report_all : List Models.WorkloadStatus → M (List WorkloadStatus)
  unfolding report
  report_all [] = pure []
  report_all (s ∷ ss) = do r ← report s; rs ← report_all ss; pure (r ∷ rs)

  -- `workloadStatuses`, where there is a workload manager
  unfoldable pub workload_statuses : M (List WorkloadStatus)
  unfolding report_all
  workload_statuses = do r ← list_current env none; on_result r (λ ss. report_all ss) (λ _. pure [])

-- `workloadUsage`
unfoldable pub workload_usage : List WorkloadStatus → List WorkloadUsageSnapshot
workload_usage [] = []
workload_usage (s ∷ ss) =
    let rest = workload_usage ss in elim s.usage [ none ↦ rest | some u ↦ u ∷ rest ]

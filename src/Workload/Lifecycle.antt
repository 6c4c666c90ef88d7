-- ===== src/Workload/Lifecycle.antt =====
-- internal/workload/manager.go: `DeleteWorkload`, `GetStatus`, `ListWorkloads` and
-- `UpdateWorkloadMetrics`. The metrics calls themselves are not modelled.
pub mod Removal
use compute_agent.Base.{
  ℕ, suc, String, ◌<>◌, Bool, true, Option, none, some, List, [], ◌∷◌, str_eq, if◌then◌else◌,
}
use compute_agent.Base.Dict
use compute_agent.Base.Dict.{Dict}
use compute_agent.Models.{
  WorkloadType, ActualState, pending, running, stopped, failed, unknown, wants_stopped, Workload,
  WorkloadStatus,
}
use compute_agent.Errors.{Err, plain, error_text, Result, ok, err}
use compute_agent.Workload.World.{
  Env, M, pure, ◌>>=◌, ◌>>◌, on_result, on_error, now, act, deletes, get_workload, get_status,
  get_runtime, list_statuses, delete_workload, save_status, read_status, reset_retry_tracker,
  type_text,
}
use compute_agent.Workload.Status.{
  normalize_state_for_desired, clear_retry_state_metadata, enrich_status,
}
use compute_agent.Workload.Storage.{release_managed_storage}

abbrev pub same_type : WorkloadType → WorkloadType → Bool
same_type a b = str_eq (type_text a) (type_text b)

module _ (env : Env) where
  -- The runtime's error is logged, and the records go all the same.
  delete_from : String → WorkloadType → M (Option Err)
  delete_from id rt = do
    e ← act env (deletes rt id)
    release_managed_storage env id
    e' ← delete_workload env id
    on_error e' (pure none)
        (λ e. pure (some (plain ("failed to delete from state: " <> error_text e))))

  -- `DeleteWorkload`
  unfoldable pub remove_workload : String → M (Option Err)
  unfolding delete_from
  remove_workload id = do
    r ← get_workload env id
    on_result r
        (λ w.
          on_result (get_runtime env w.kind) (λ rt. delete_from id rt)
            (λ e. pure (some (plain ("runtime not available: " <> error_text e)))))
        (λ e. pure (some (plain ("workload not found: " <> error_text e))))

  forget_if_stopped : Workload → String → WorkloadStatus → M WorkloadStatus
  forget_if_stopped w id s =
      if wants_stopped w.desired_state
      then (do reset_retry_tracker id; pure (clear_retry_state_metadata s))
      else pure s

  -- The status with what the runtime answered; that it cannot be saved is ignored.
  refreshed :
      Workload → WorkloadType → String → WorkloadStatus → ActualState × String → M WorkloadStatus
  unfolding forget_if_stopped
  refreshed w rt id s (actual, message) = do
    t ← now env
    s1 ←
        forget_if_stopped w id
          (record s { actual_state = actual; message = message; updated_at = t })
    s2 ← enrich_status env rt id s1
    (e, s3) ← save_status env s2
    pure s3

  refresh_status : String → WorkloadStatus → M WorkloadStatus
  unfolding refreshed
  refresh_status id s = do
    rw ← get_workload env id
    on_result rw
        (λ w.
          on_result (get_runtime env w.kind)
            (λ rt. do
              r ← read_status env rt id
              on_result r
                  (λ a. refreshed w rt id s (normalize_state_for_desired w.desired_state a.0 a.1))
                  (λ _. pure s))
            (λ _. pure s))
        (λ _. pure s)

  -- `GetStatus`
  unfoldable pub current_status : String → M (Result WorkloadStatus)
  unfolding refresh_status
  current_status id = do
    r ← get_status env id
    on_result r (λ s. do s' ← refresh_status id s; pure (ok s'))
        (λ e. pure (err (plain ("status not found: " <> error_text e))))

  abbrev wanted_type : Option WorkloadType → WorkloadStatus → Bool
  wanted_type none s = true
  wanted_type (some kind) s = same_type s.kind kind

  -- A status that cannot be refreshed is listed as it was stored.
  refresh_all : Option WorkloadType → List WorkloadStatus → M (List WorkloadStatus)
  refresh_all kind [] = pure []
  refresh_all kind (s ∷ ss) =
      let others = refresh_all kind ss in
      if wanted_type kind s
      then (do
        r ← current_status s.id
        on_result r (λ s'. do rest ← others; pure (s' ∷ rest))
            (λ _. do rest ← others; pure (s ∷ rest)))
      else others

  -- `ListWorkloads`; without a type all are listed.
  unfoldable pub list_current : Option WorkloadType → M (Result (List WorkloadStatus))
  unfolding refresh_all
  list_current kind = do
    r ← list_statuses env
    on_result r (λ ss. do all ← refresh_all kind ss; pure (ok all))
        (λ e. pure (err (plain ("failed to list statuses: " <> error_text e))))

abbrev pub state_text : ActualState → String
state_text pending = "pending"
state_text running = "running"
state_text stopped = "stopped"
state_text failed = "failed"
state_text unknown = "unknown"

abbrev count_or_zero : Option ℕ → ℕ
count_or_zero none = 0
count_or_zero (some n) = n

-- `counts[state][type]++`, the two keys in one.
abbrev count_key : ActualState → WorkloadType → String
count_key state kind = state_text state <> "/" <> type_text kind

-- The counts of `UpdateWorkloadMetrics`.
unfoldable pub workload_counts : List WorkloadStatus → Dict ℕ → Dict ℕ
workload_counts [] counts = counts
workload_counts (s ∷ ss) counts =
    let key = count_key s.actual_state s.kind in
    workload_counts ss (Dict.put key (suc (count_or_zero (Dict.get key counts))) counts)

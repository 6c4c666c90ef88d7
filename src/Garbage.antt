-- ===== src/Garbage.antt =====
-- internal/garbage/collector.go: the garbage collector, over the world of the workload manager. It
-- takes no lock of a workload; one collection is one step here. Metrics and logging are left out.
pub mod Orphans
pub mod Failures
pub mod Zombies
use compute_agent.Base.{
  ℕ, suc, ◌+◌, String, Bool, true, false, not, ◌&&◌, Option, none, some, List, [], ◌∷◌, str_eq, any,
  map, if◌then◌else◌,
}
use compute_agent.Base.Int.{ltb_ℤ}
use compute_agent.Clock.{Duration, seconds, sub_time}
use compute_agent.Errors.{Err, Result, ok, err}
use compute_agent.Models.{
  Time, WorkloadType, container, compose, is_failed, ActualState, Workload, WorkloadStatus,
}
use compute_agent.Workload.World.{
  Env, World, M, pure, ◌>>=◌, ◌>>◌, on_result, now, get_status, list_workloads, list_statuses,
  save_status, delete_workload, get_runtime, act, deletes, read_status, list_resources,
}

pub record CollectorConfig : Type 0 where
  pub enabled : Bool
  pub interval : Duration
  pub failed_workload_ttl : Duration
  pub max_orphaned_resource_age : Duration

abbrev pub default_config : CollectorConfig
default_config = record {
  enabled = true;
  interval = seconds 300;
  failed_workload_ttl = seconds 3600;
  max_orphaned_resource_age = seconds 1800;
}

-- `stateIDs[id]`
abbrev pub is_stored : List Workload → String → Bool
is_stored ws id = any (λ w. str_eq w.id id) ws

-- One more if a call was answered without an error.
abbrev pub plus_done {ℓ} : {E : Type ℓ} → Option E → ℕ → ℕ
plus_done none n = suc n
plus_done (some e) n = n

abbrev pub is_old_failure : Time → Duration → WorkloadStatus → Bool
is_old_failure at ttl s = is_failed s.actual_state && ltb_ℤ ttl (sub_time at s.updated_at)

module _ (env : Env) where
  -- The loop over the resources of one runtime.
  unfoldable pub delete_orphans : WorkloadType → List Workload → List String → M ℕ
  delete_orphans rt ws [] = pure 0
  delete_orphans rt ws (id ∷ ids) =
      let rest = delete_orphans rt ws ids in
      if is_stored ws id
      then rest
      else (do e ← act env (deletes rt id); n ← rest; pure (plus_done e n))

  unfoldable pub collect_orphans_of : WorkloadType → M ℕ
  unfolding delete_orphans
  collect_orphans_of kind =
      on_result (get_runtime env kind)
        (λ rt. do
          listed ← list_resources env rt
          on_result listed
              (λ ids. do
                stored ← list_workloads env
                on_result stored (λ ws. delete_orphans rt ws ids) (λ e. pure 0))
              (λ e. pure 0))
        (λ e. pure 0)

  -- Virtual machines are skipped.
  unfoldable pub collect_orphaned_resources : M ℕ
  unfolding collect_orphans_of
  collect_orphaned_resources = do
    n ← collect_orphans_of container
    m ← collect_orphans_of compose
    pure (n + m)

  -- The loop over the statuses.
  unfoldable pub delete_old_failures : Time → Duration → List WorkloadStatus → M ℕ
  delete_old_failures at ttl [] = pure 0
  delete_old_failures at ttl (s ∷ ss) =
      let rest = delete_old_failures at ttl ss in
      if is_old_failure at ttl s
      then (do e ← delete_workload env s.id; n ← rest; pure (plus_done e n))
      else rest

  unfoldable pub collect_old_failed_workloads : Duration → M ℕ
  unfolding delete_old_failures
  collect_old_failed_workloads ttl = do
    r ← list_statuses env
    on_result r (λ ss. do t ← now env; delete_old_failures t ttl ss) (λ e. pure 0)

  -- The status takes the message of the runtime.
  refresh_message : String → Result WorkloadStatus → M (Unit {0})
  refresh_message message (err e) = pure tt
  refresh_message message (ok s) = do
    t ← now env
    saved ← save_status env (record s { message = message; updated_at = t })
    pure tt

  -- One turn of the loop over the workloads.
  unfoldable pub check_zombie : Workload → M ℕ
  unfolding refresh_message
  check_zombie w =
      on_result (get_runtime env w.kind)
        (λ rt. do
          r ← read_status env rt w.id
          on_result r (λ a. do s ← get_status env w.id; refresh_message a.1 s; pure 0)
              (λ e. do d ← delete_workload env w.id; pure (plus_done d 0)))
        (λ e. pure 0)

  unfoldable pub check_zombies : List Workload → M ℕ
  unfolding check_zombie
  check_zombies [] = pure 0
  check_zombies (w ∷ ws) = do n ← check_zombie w; m ← check_zombies ws; pure (n + m)

  unfoldable pub cleanup_zombies : M ℕ
  unfolding check_zombies
  cleanup_zombies = do r ← list_workloads env; on_result r (λ ws. check_zombies ws) (λ e. pure 0)

  -- `collect`, and `CleanupNow`: what was collected of the three kinds.
  unfoldable pub collect : CollectorConfig → M (ℕ × ℕ × ℕ)
  unfolding collect_orphaned_resources collect_old_failed_workloads cleanup_zombies
  collect config = do
    orphaned ← collect_orphaned_resources
    old ← collect_old_failed_workloads config.failed_workload_ttl
    zombies ← cleanup_zombies
    pure (orphaned, old, zombies)

-- ===== src/Examples/Workloads.antt =====
-- Examples of reconciling and applying (internal/workload/manager.go).
use compute_agent.Base.{◌≡◌, refl, trim_space, [], ◌∷◌, arith}
use compute_agent.Models.{
  container, desired_running, desired_stopped, running, failed, stopped, WorkloadStatus,
}
use compute_agent.Base.Dict
use compute_agent.Base.Int.{scale_int64, wrap_int64}
use compute_agent.Clock.{add_time}
use compute_agent.Retry.Tracker.{calculate_next_delay, new_retry_tracker}
use compute_agent.Workload.World.{reads_status}
use compute_agent.Workload.Status.{is_retry_terminal}
use compute_agent.Workload.Keeps.Calls.{Adds}
use compute_agent.Workload.Reconcile.{reconcile_workload, reconcile_loaded}
use compute_agent.Workload.Reconcile.Calls.{Concerns, reconcile_workload-Concerns}
use compute_agent.Workload.Reconcile.Spares.{Spares, reconcile_workload-Spares}
use compute_agent.Workload.Reconcile.Backoff.{IsPrompt, failed_never_recreated}
use compute_agent.Workload.Reconcile.Terminal.{Reads, halted_stays_idle}
use compute_agent.Workload.World.{get_workload, get_runtime, delete_workload, update}
use compute_agent.Workload.Storage.{release_managed_storage}
use compute_agent.Workload.Lifecycle.{remove_workload}
use compute_agent.Workload.Lifecycle.Removal.{IsGone, remove_workload-IsGone}
use compute_agent.Examples.Data.{node, web, web_status, world_of, fresh_tracker}
use compute_agent.Examples.Stores.{stored-IsWellFormed}

reconcile_workload-Concerns_example :
    Adds
      (Concerns "web")
      []
      (reconcile_workload (node stopped) "web" (world_of desired_running stopped)).1.calls
reconcile_workload-Concerns_example =
    reconcile_workload-Concerns (node stopped) "web" (world_of desired_running stopped)
      (stored-IsWellFormed desired_running stopped)

reconcile_workload-Spares_example :
    Adds
      (Spares "web")
      []
      (reconcile_workload (node running) "web" (world_of desired_stopped running)).1.calls
unfolding Dict.get
reconcile_workload-Spares_example =
    reconcile_workload-Spares (node running) "web" (world_of desired_stopped running)
      (web desired_stopped) (stored-IsWellFormed desired_stopped running) refl refl

fresh-IsPrompt : IsPrompt (node failed) fresh_tracker
unfolding calculate_next_delay scale_int64 wrap_int64 add_time
fresh-IsPrompt n = omega arith

failed_never_recreated_example :
    (reconcile_loaded
      (node failed)
      (web desired_running)
      (web_status desired_running running)
      container
      (world_of desired_running running)).1.calls
    ≡ reads_status container "web" ∷ []
unfolding Dict.get new_retry_tracker
failed_never_recreated_example =
    failed_never_recreated (node failed) (web desired_running) (web_status desired_running running)
      container "connection refused" (world_of desired_running running) refl refl fresh-IsPrompt

abbrev halted_status : WorkloadStatus
halted_status = record (web_status desired_running failed) {
  metadata = ("retry_terminal", "true") ∷ [];
}

halted_stays_idle_example :
    Adds
      (Reads "web")
      []
      (reconcile_loaded
        (node failed)
        (web desired_running)
        halted_status
        container
        (world_of desired_running failed)).1.calls
unfolding is_retry_terminal trim_space Dict.get
halted_stays_idle_example =
    halted_stays_idle (node failed) (web desired_running) halted_status container failed
      "connection refused" (world_of desired_running failed) refl refl refl refl

remove_workload-IsGone_example :
    IsGone "web" (remove_workload (node running) "web" (world_of desired_running running)).1.buckets
unfolding Dict.get remove_workload get_workload get_runtime delete_workload update
    release_managed_storage
remove_workload-IsGone_example =
    remove_workload-IsGone (node running) "web" (world_of desired_running running) refl

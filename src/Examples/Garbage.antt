-- ===== src/Examples/Garbage.antt =====
-- Examples of garbage collections (internal/garbage/collector.go).
use compute_agent.Base.{◌≡◌, refl, none, [], ◌∷◌}
use compute_agent.Base.Dict
use compute_agent.Clock.{seconds, sub_time}
use compute_agent.Errors.{plain, err}
use compute_agent.Models.{container, desired_running, running, failed}
use compute_agent.State
use compute_agent.Workload.World.{Env, reads_status}
use compute_agent.Garbage.{collect_orphaned_resources, collect_old_failed_workloads, check_zombie}
use compute_agent.Garbage.Orphans.{HasSpared, collect_orphaned_resources-HasSpared}
use compute_agent.Garbage.Failures.{IsKept, collect_old_failed_workloads-IsKept}
use compute_agent.Garbage.Zombies.{check_zombie-forgets}
use compute_agent.Examples.Data.{node, web, web_status, world_of, stored}
use compute_agent.Examples.Stores.{stored-IsWellFormed}

collect_orphaned_resources-HasSpared_example :
    HasSpared
      (stored desired_running running)
      []
      (collect_orphaned_resources (node running) (world_of desired_running running)).1
collect_orphaned_resources-HasSpared_example =
    collect_orphaned_resources-HasSpared (node running) (world_of desired_running running)
      (stored-IsWellFormed desired_running running)

collect_old_failed_workloads-IsKept_example :
    IsKept "web"
      (stored desired_running failed)
      (collect_old_failed_workloads
        (node failed)
        (seconds 3600)
        (world_of desired_running failed)).1.buckets
unfolding Dict.get sub_time
collect_old_failed_workloads-IsKept_example =
    collect_old_failed_workloads-IsKept (node failed) (seconds 3600) "web"
      (web_status desired_running failed) (world_of desired_running failed)
      (stored-IsWellFormed desired_running failed) refl refl

abbrev unreachable : Env
unreachable = record (node running) { status_answer = λ cs. err (plain "connection refused") }

check_zombie-forgets_example :
    let after =
      (check_zombie unreachable (web desired_running) (world_of desired_running running)).1 in
    (State.get_workload "web" after.buckets ≡ none)
    × (State.get_status "web" after.buckets ≡ none)
    × (after.calls ≡ reads_status container "web" ∷ [])
check_zombie-forgets_example =
    check_zombie-forgets unreachable (web desired_running) (plain "connection refused")
      (world_of desired_running running) refl refl refl

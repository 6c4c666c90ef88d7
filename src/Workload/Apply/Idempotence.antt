-- ===== src/Workload/Apply/Idempotence.antt =====
-- When `ApplyWorkload` leaves a stored revision as it is (internal/workload/manager.go).
use compute_agent.Base.{Bool, false, not, ◌&&◌, ◌||◌, ◌≡◌, String}
use compute_agent.Models.{
  DesiredState, desired_running, desired_stopped, other_desired, ActualState, is_failed,
  wants_running, wants_stopped, is_running, is_pending, is_unknown, Workload, WorkloadStatus,
}
use compute_agent.State
use compute_agent.Workload.Status.{is_runtime_missing}
use compute_agent.Workload.World.{World}
use compute_agent.Workload.Apply.{same_desired}

-- What a runtime reports, with its message, is as desired. An unknown state counts as stopped unless
-- the message says that the runtime has no such workload; of a desired state that the agent does not
-- know, only a failure or a missing workload is not.
abbrev pub Fits : DesiredState → ActualState → String → Type 0
Fits desired_running ActualState.running m = Unit
Fits desired_running _ m = ⊥
Fits desired_stopped ActualState.stopped m = Unit
Fits desired_stopped ActualState.unknown m = is_runtime_missing m ≡ false
Fits desired_stopped _ m = ⊥
Fits (other_desired d) ActualState.failed m = ⊥
Fits (other_desired d) ActualState.unknown m = is_runtime_missing m ≡ false
Fits (other_desired d) _ m = Unit

-- The workload that is stored is to be as the one applied, and its stored status is as desired.
abbrev pub IsSettled : Workload → Workload → WorkloadStatus → Type 0
IsSettled existing w s =
    (existing.desired_state ≡ w.desired_state) × Fits w.desired_state s.actual_state s.message

-- The tests of the source on the state, in one.
abbrev is_fit : DesiredState → ActualState → String → Bool
is_fit d a m =
    not (is_failed a)
    && (not (is_unknown a && is_runtime_missing m)
        && (not (
              wants_running d && (not (is_running a) && not (is_unknown a && is_runtime_missing m)))
            && not (wants_stopped d && (is_running a || is_pending a))))

settles : Workload → Workload → WorkloadStatus → Bool
settles existing w s =
    same_desired existing.desired_state w.desired_state
    && is_fit w.desired_state s.actual_state s.message

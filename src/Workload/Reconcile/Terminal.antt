-- ===== src/Workload/Reconcile/Terminal.antt =====
-- What `ReconcileWorkload` does with a workload whose retries were halted
-- (internal/workload/manager.go, `isRetryTerminal`).
use compute_agent.Base.{String, Bool, true, false, not, ◌&&◌, ◌||◌, ◌≡◌, refl, List, ◌∷◌}
use compute_agent.Models.{
  Time, WorkloadType, ActualState, wants_running, stopped_not_running, is_pending, is_running,
  is_failed, is_unknown, Workload, WorkloadStatus,
}
use compute_agent.Errors.{ok}
use compute_agent.Workload.World.{
  Env, World, ◌>>=◌, Call, reads_status, reads_metadata, read_status, store_status, now,
}
use compute_agent.Workload.Status.{
  is_retry_terminal, is_runtime_missing, normalize_state_for_desired,
}
use compute_agent.Workload.Keeps.{Keeps-if}
use compute_agent.Workload.Keeps.Calls.{Adds, same, added, Makes, makes_rules}
use compute_agent.Workload.Reconcile.{
  halted, reconcile_failed, reconcile_start, reconcile_by_state, reconcile_loaded, observed,
  forget_retries,
}
use compute_agent.Workload.Reconcile.Calls.{Makes-finish}

-- The call reads what the runtime knows of the workload `id`.
abbrev pub Reads : String → Call → Type 0
Reads id (reads_status rt i) = i ≡ id
Reads id (reads_metadata rt i) = i ≡ id
Reads id _ = ⊥

module _ (env : Env) (w : Workload) (rt : WorkloadType) (s : WorkloadStatus) (old : List Call) where
  store_halted-Reads : Makes (Reads w.id) old (do t ← now env; store_status env (halted s t))
  store_halted-Reads = search makes_rules depth 8

  module _ (terminal : is_retry_terminal s ≡ true)
      (run : wants_running w.desired_state ≡ true) where
    failed-Reads :
        (missing : Bool) (message : String)
        → Makes (Reads w.id) old (reconcile_failed env w s rt missing message)
    unfolding reconcile_failed
    failed-Reads missing message = rw terminal store_halted-Reads

    start-Reads : Makes (Reads w.id) old (reconcile_start env w s rt)
    unfolding reconcile_start
    start-Reads = rw terminal (search makes_rules depth 9)

    by_state-Reads :
        (actual : ActualState) (message : String)
        → is_pending actual ≡ false
        → Makes (Reads w.id) old (reconcile_by_state env w s rt actual message)
    unfolding reconcile_by_state
    by_state-Reads actual message live =
        let missing = is_unknown actual && is_runtime_missing message in
        let done = Makes-finish env (Reads w.id) old w.id false rt s refl refl in
        rw (live, run, stopped_not_running w.desired_state run)
          (Keeps-if (is_unknown actual && not missing) _ _ done (
            Keeps-if (is_failed actual || missing) _ _ (failed-Reads missing message)
              (Keeps-if (not (is_running actual)) _ _ start-Reads done)))

is_retry_terminal-set_state :
    (s : WorkloadStatus) (actual : ActualState) (message : String) (t : Time)
    → is_retry_terminal s ≡ true
    → is_retry_terminal (record s { actual_state = actual; message = message; updated_at = t })
      ≡ true
unfolding is_retry_terminal
is_retry_terminal-set_state s actual message t h = h

-- Once a workload that is to run, its status and its runtime are loaded, the status has the retries
-- halted, and the runtime reports another state than pending, reconciling only reads what the
-- runtime knows of it.
pub halted_stays_idle :
    (env : Env) (w : Workload) (s : WorkloadStatus) (rt : WorkloadType) (actual : ActualState)
    (message : String) (world : World)
    → wants_running w.desired_state ≡ true
    → is_retry_terminal s ≡ true
    → env.status_answer (reads_status rt w.id ∷ world.calls) ≡ ok (actual, message)
    → is_pending actual ≡ false
    → Adds (Reads w.id) world.calls (reconcile_loaded env w s rt world).1.calls
unfolding reconcile_loaded read_status observed forget_retries now normalize_state_for_desired
halted_stays_idle env w s rt actual message world run terminal answer live =
    rw (answer, stopped_not_running w.desired_state run)
      ((by_state-Reads env w rt _ world.calls
          (is_retry_terminal-set_state s actual message _ terminal) run actual message live).at
        _ (added refl same))

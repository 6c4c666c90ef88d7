-- ===== src/Workload/Reconcile/Spares.antt =====
-- Which calls `ReconcileWorkload` makes for a workload that is not to run
-- (internal/workload/manager.go).
use compute_agent.Base.{String, false, not, ◌&&◌, ◌≡◌, refl, some, List, arith}
use compute_agent.State
use compute_agent.State.Laws.{IsWellFormed}
use compute_agent.Errors.{ok}
use compute_agent.Models.{
  WorkloadType, ActualState, wants_running, wants_stopped, is_pending, is_running, is_unknown,
  Workload, WorkloadStatus,
}
use compute_agent.Workload.World.{
  Env, World, get_workload, Call, stops, reads_status, reads_metadata,
}
use compute_agent.Workload.Status.{is_runtime_missing}
use compute_agent.Workload.Keeps.{Keeps-if}
use compute_agent.Workload.Keeps.Calls.{Adds, Makes, makes_rules}
use compute_agent.Workload.Reconcile.{
  finish, observed, reconcile_stop, reconcile_pending, reconcile_by_state, reconcile_loaded,
  reconcile_workload,
}
use compute_agent.Workload.Reconcile.Calls.{Makes-finish, loaded_id, by_loaded}

-- The call reads, or stops the workload `id`.
abbrev pub Spares : String → Call → Type 0
Spares id (stops rt i) = i ≡ id
Spares id (reads_status rt i) = i ≡ id
Spares id (reads_metadata rt i) = i ≡ id
Spares id _ = ⊥

module _ (env : Env) (w : Workload) (rt : WorkloadType) (old : List Call)
    (idle : wants_running w.desired_state ≡ false) where
  reconcile_stop-Spares : (s : WorkloadStatus) → Makes (Spares w.id) old (reconcile_stop env w s rt)
  unfolding reconcile_stop
  reconcile_stop-Spares s = search (makes_rules, Makes-finish) depth 8

  reconcile_pending-Spares :
      (s : WorkloadStatus) → Makes (Spares w.id) old (reconcile_pending env w s rt)
  unfolding reconcile_pending
  reconcile_pending-Spares s = rw idle (search Makes-finish)

  reconcile_by_state-Spares :
      (s : WorkloadStatus) (actual : ActualState) (message : String)
      → Makes (Spares w.id) old (reconcile_by_state env w s rt actual message)
  unfolding reconcile_by_state
  reconcile_by_state-Spares s actual message =
      let missing = is_unknown actual && is_runtime_missing message in
      let done = Makes-finish env (Spares w.id) old w.id false rt s refl refl in
      let stop =
        Keeps-if (wants_stopped w.desired_state && is_running actual) (reconcile_stop env w s rt)
          (finish env false rt w.id s) (reconcile_stop-Spares s) done in
      rw idle (
        Keeps-if (is_pending actual) _ _ (reconcile_pending-Spares s)
          (Keeps-if (is_unknown actual && not missing) _ _ done stop))

  observed-Spares :
      (s : WorkloadStatus) (a : ActualState × String)
      → Makes (Spares w.id) old (observed env w s rt a)
  unfolding observed
  observed-Spares s (actual, message) = search (makes_rules, reconcile_by_state-Spares) depth 9

  reconcile_loaded-Spares :
      (s : WorkloadStatus) → Makes (Spares w.id) old (reconcile_loaded env w s rt)
  unfolding reconcile_loaded
  reconcile_loaded-Spares s = search (makes_rules, observed-Spares) depth 9

module _ (env : Env) (id : String) (world : World) where
  loaded_desired :
      (w : Workload) {v : Workload}
      → (get_workload env id world).0 ≡ ok w
      → State.get_workload id world.buckets ≡ some v
      → w ≡ v
  unfolding get_workload
  loaded_desired w e f = ground arith

  -- In a well-formed store, reconciling a stored workload that is not to run neither creates nor
  -- starts nor deletes anything: it reads, and stops this workload at most.
  pub reconcile_workload-Spares :
      (v : Workload)
      → IsWellFormed world.buckets
      → State.get_workload id world.buckets ≡ some v
      → wants_running v.desired_state ≡ false
      → Adds (Spares id) world.calls (reconcile_workload env id world).1.calls
  reconcile_workload-Spares v h e d = by_loaded env id world (Spares id) (λ w q rt s.
      rw (← loaded_id env id world w h q)
        (reconcile_loaded-Spares env w rt world.calls (rw (loaded_desired w q e) d) s))

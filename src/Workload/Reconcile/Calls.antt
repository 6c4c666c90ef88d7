-- ===== src/Workload/Reconcile/Calls.antt =====
-- Which calls `ReconcileWorkload` makes (internal/workload/manager.go).
use compute_agent.Base.{String, ◌<>◌, Bool, true, false, ◌≡◌, refl, Option, none, some, List, arith}
use compute_agent.Retry.Reason.{FailureReason}
use compute_agent.Retry.Tracker.{RetryTracker}
use compute_agent.State.Laws.{IsWellFormed}
use compute_agent.Errors.{Result, ok, err, plain, Err, error_text}
use compute_agent.Models.{Time, WorkloadType, ActualState, Workload, WorkloadStatus}
use compute_agent.Workload.World.{
  Env, World, M, get_workload, get_status, get_runtime, pure, ◌>>=◌, on_result, Call, Availability,
  available, check_failed, short_of, creates, starts, stops, deletes, reads_status, reads_metadata,
  checks_resources,
}
use compute_agent.Workload.Keeps.{Keeps-on_error}
use compute_agent.Workload.Keeps.Calls.{Adds, same, Makes, makes_rules, Makes-get_workload}
use compute_agent.Workload.Recovery.{
  handle_pending_recovery, restart, give_up, Handling, handled, not_handled,
}
use compute_agent.Workload.Reconcile.{
  finish, delete_and_create, created_again, started_again, on_availability, after_record,
  start_failed, start_succeeded, after_handling, observed, recreate, retry_failed, reconcile_failed,
  reconcile_start, reconcile_stop, reconcile_pending, reconcile_by_state, reconcile_loaded,
  reconcile_workload,
}

-- The call concerns the workload `id`, or the resources of the node.
abbrev pub Concerns : String → Call → Type 0
Concerns id (creates rt w) = w.id ≡ id
Concerns id (starts rt i) = i ≡ id
Concerns id (stops rt i) = i ≡ id
Concerns id (deletes rt i) = i ≡ id
Concerns id (reads_status rt i) = i ≡ id
Concerns id (reads_metadata rt i) = i ≡ id
Concerns id checks_resources = Unit
Concerns id _ = ⊥

module _ (env : Env) (P : Call → Type 0) (old : List Call) where
  pub Makes-finish :
      (id : String) (b : Bool) (rt : WorkloadType) (s : WorkloadStatus)
      → P (reads_status rt id)
      → P (reads_metadata rt id)
      → Makes P old (finish env b rt id s)
  unfolding finish
  Makes-finish id true rt s p q = search (makes_rules) depth 8
  Makes-finish id false rt s p q = search (makes_rules) depth 8

module _ (env : Env) (w : Workload) (rt : WorkloadType) (old : List Call) where
  -- The calls of a method that concern `w`.
  abbrev Own : M (Option Err) → Type 0
  Own m = Makes (Concerns w.id) old m

  started_again-Own :
      (s : WorkloadStatus) (e : Option String)
      → Makes (Concerns w.id) old (started_again env w.id s e)
  unfolding started_again
  started_again-Own s (some e) = search (makes_rules)
  started_again-Own s none = search (makes_rules)

  created_again-Own :
      (s : WorkloadStatus) (e : Option String)
      → Makes (Concerns w.id) old (created_again env w rt s e)
  unfolding created_again
  created_again-Own s (some e) = search (makes_rules)
  created_again-Own s none = search (makes_rules, started_again-Own) depth 8

  delete_and_create-Own : (s : WorkloadStatus) → Own (delete_and_create env w s rt)
  unfolding delete_and_create
  delete_and_create-Own s = search (makes_rules, created_again-Own, Makes-finish) depth 8

  on_availability-Own : (s : WorkloadStatus) (a : Availability) → Own (on_availability env w s rt a)
  unfolding on_availability
  on_availability-Own s available = delete_and_create-Own s
  on_availability-Own s (check_failed e) = search (makes_rules) depth 8
  on_availability-Own s (short_of issues) = search (makes_rules) depth 8

  recreate-Own : (s : WorkloadStatus) → Own (recreate env w s rt)
  unfolding recreate
  recreate-Own s = search (makes_rules, on_availability-Own, delete_and_create-Own, tt) depth 8

  after_record-Own :
      (s : WorkloadStatus) (reason : FailureReason) (t : RetryTracker) (next : Option Time)
      → Own (after_record env w s rt reason t next)
  unfolding after_record
  after_record-Own s reason t none = search (makes_rules) depth 8
  after_record-Own s reason t (some next) = search (makes_rules, recreate-Own) depth 8

  retry_failed-Own : (s : WorkloadStatus) → Own (retry_failed env w s rt)
  unfolding retry_failed
  retry_failed-Own s = search (makes_rules, after_record-Own) depth 9

  reconcile_failed-Own :
      (s : WorkloadStatus) (missing : Bool) (message : String)
      → Own (reconcile_failed env w s rt missing message)
  unfolding reconcile_failed
  reconcile_failed-Own s missing message =
      search (makes_rules, recreate-Own, retry_failed-Own) depth 9

  start_failed-Own :
      (s : WorkloadStatus) (t : RetryTracker) (e : String) → Own (start_failed env w s t e)
  unfolding start_failed
  start_failed-Own s t e = search (makes_rules) depth 9

  start_succeeded-Own : (s : WorkloadStatus) → Own (start_succeeded env w s rt)
  unfolding start_succeeded
  start_succeeded-Own s = search (makes_rules, Makes-finish) depth 8

  reconcile_start-Own : (s : WorkloadStatus) → Own (reconcile_start env w s rt)
  unfolding reconcile_start
  reconcile_start-Own s =
      search (makes_rules, Keeps-on_error, start_failed-Own, start_succeeded-Own) depth 12

  reconcile_stop-Own : (s : WorkloadStatus) → Own (reconcile_stop env w s rt)
  unfolding reconcile_stop
  reconcile_stop-Own s = search (makes_rules, Makes-finish) depth 8

  after_handling-Own : (s : WorkloadStatus) (h : Handling) → Own (after_handling env w s rt h)
  unfolding after_handling
  after_handling-Own s (handled e) = search (makes_rules)
  after_handling-Own s not_handled = search Makes-finish

  give_up-Own :
      (s : WorkloadStatus) (t : Time) (e : String)
      → Makes (Concerns w.id) old (give_up env w s rt t e)
  unfolding give_up
  give_up-Own s t e = search (makes_rules) depth 12

  handle_pending_recovery-Own :
      (s : WorkloadStatus) → Makes (Concerns w.id) old (handle_pending_recovery env w s rt)
  unfolding handle_pending_recovery restart
  handle_pending_recovery-Own s = search (makes_rules, Keeps-on_error, give_up-Own) depth 12

  reconcile_pending-Own : (s : WorkloadStatus) → Own (reconcile_pending env w s rt)
  unfolding reconcile_pending
  reconcile_pending-Own s =
      search (makes_rules, Makes-finish, handle_pending_recovery-Own, after_handling-Own) depth 8

  reconcile_by_state-Own :
      (s : WorkloadStatus) (actual : ActualState) (message : String)
      → Own (reconcile_by_state env w s rt actual message)
  unfolding reconcile_by_state
  reconcile_by_state-Own s actual message =
      search
        (
          makes_rules, Makes-finish, reconcile_pending-Own, reconcile_failed-Own,
          reconcile_start-Own, reconcile_stop-Own,
        )
        depth 9

  observed-Own : (s : WorkloadStatus) (a : ActualState × String) → Own (observed env w s rt a)
  unfolding observed
  observed-Own s (actual, message) = search (makes_rules, reconcile_by_state-Own) depth 9

  reconcile_loaded-Own :
      (s : WorkloadStatus) → Makes (Concerns w.id) old (reconcile_loaded env w s rt)
  unfolding reconcile_loaded
  reconcile_loaded-Own s = search (makes_rules, observed-Own) depth 9

module _ (env : Env) (id : String) (world : World) where
  -- A workload that the store returns bears the identifier that it was asked for.
  pub loaded_id :
      (w : Workload) → IsWellFormed world.buckets → (get_workload env id world).0 ≡ ok w → w.id ≡ id
  unfolding get_workload
  loaded_id w h e = ground (arith, h.workloads.own id w)

  -- What is known of the workload that is loaded, if any, is enough to know the calls.
  pub by_loaded :
      (P : Call → Type 0)
      → ((w : Workload)
          → (get_workload env id world).0 ≡ ok w
          → (rt : WorkloadType) (s : WorkloadStatus)
          → Makes P world.calls (reconcile_loaded env w s rt))
      → Adds P world.calls (reconcile_workload env id world).1.calls
  unfolding reconcile_workload
  by_loaded P h = go (get_workload env id world).0 refl
    where
      go :
          (r : Result Workload)
          → (get_workload env id world).0 ≡ r
          → Adds P world.calls
              (on_result r
                (λ w. do
                  rs ← get_status env id
                  on_result rs
                      (λ s.
                        on_result
                          (get_runtime env w.kind)
                          (λ rt. reconcile_loaded env w s rt)
                          (λ e. pure (some (plain ("runtime not available: " <> error_text e)))))
                      (λ e. pure (some (plain ("status not found: " <> error_text e)))))
                (λ e. pure (some (plain ("workload not found: " <> error_text e))))
                (get_workload env id world).1).1.calls
      go (err e) q = (Makes-get_workload env P world.calls id).at world same
      go (ok w) q =
          let m : Makes P world.calls (do
            rs ← get_status env id
            on_result rs
                (λ s.
                  on_result (get_runtime env w.kind) (λ rt. reconcile_loaded env w s rt)
                    (λ e. pure (some (plain ("runtime not available: " <> error_text e)))))
                (λ e. pure (some (plain ("status not found: " <> error_text e))))) =
            search makes_rules depth 8 in
          m.at (get_workload env id world).1
            ((Makes-get_workload env P world.calls id).at world same)

  -- In a well-formed store, reconciling a workload makes no call for another workload, and none to
  -- the volume manager.
  pub reconcile_workload-Concerns :
      IsWellFormed world.buckets
      → Adds (Concerns id) world.calls (reconcile_workload env id world).1.calls
  reconcile_workload-Concerns h =
      by_loaded (Concerns id)
        (λ w q rt s. rw (← loaded_id w h q) (reconcile_loaded-Own env w rt world.calls s))

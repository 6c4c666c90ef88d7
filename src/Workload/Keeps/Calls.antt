-- ===== src/Workload/Keeps/Calls.antt =====
-- Which calls a method makes: those that it adds to the calls made before all satisfy a predicate.
use compute_agent.Base.{String, List, ◌∷◌}
use compute_agent.Models.{WorkloadType, Workload, WorkloadStatus}
use compute_agent.Retry.Reason.{FailureReason}
use compute_agent.Retry.Tracker.{RetryTracker}
use compute_agent.State.{Buckets}
use compute_agent.Workload.World.{
  Env, M, Call, reads_status, reads_metadata, checks_resources, now, update, get_workload,
  get_status, save_workload, save_status, delete_workload, act, read_status, read_metadata,
  check_resources, get_retry_tracker, put_tracker, reset_retry_tracker, record_retry_failure,
}
use compute_agent.Workload.Status.{enrich_status}
use compute_agent.Workload.Keeps.{
  Keeps, Keeps-pure, Keeps-if, Keeps-bind, Keeps-on_result, keeps_rules,
}

-- `new` is `old` with calls before it that all satisfy `P`.
pub data Adds (P : Call → Type 0) (old : List Call) : List Call → Type 0 where
  same : Adds P old old
  added : {cs : List Call} {c : Call} → P c → Adds P old cs → Adds P old (c ∷ cs)

-- A method whose calls all satisfy `P`.
abbrev pub Makes {ℓ} : {A : Type ℓ} → (Call → Type 0) → List Call → M A → Type ℓ
Makes P old m = Keeps (λ w. Adds P old w.calls) m

module _ (P : Call → Type 0) (old : List Call) where
  pub Makes-get_retry_tracker : (id : String) → Makes P old (get_retry_tracker id)
  unfolding get_retry_tracker
  Makes-get_retry_tracker id = record { at = λ w h. h }

  pub Makes-reset_retry_tracker : (id : String) → Makes P old (reset_retry_tracker id)
  unfolding reset_retry_tracker
  Makes-reset_retry_tracker id = record { at = λ w h. h }

module _ (env : Env) (P : Call → Type 0) (old : List Call) where
  pub Makes-now : Makes P old (now env)
  unfolding now
  Makes-now = record { at = λ w h. h }

  pub Makes-update : (f : Buckets → Buckets) → Makes P old (update env f)
  unfolding update
  Makes-update f = record { at = λ w h. h }

  pub Makes-get_workload : (id : String) → Makes P old (get_workload env id)
  unfolding get_workload
  Makes-get_workload id = record { at = λ w h. h }

  pub Makes-get_status : (id : String) → Makes P old (get_status env id)
  unfolding get_status
  Makes-get_status id = record { at = λ w h. h }

  pub Makes-save_workload : (x : Workload) → Makes P old (save_workload env x)
  unfolding save_workload now update
  Makes-save_workload x = record { at = λ w h. h }

  pub Makes-save_status : (s : WorkloadStatus) → Makes P old (save_status env s)
  unfolding save_status now update
  Makes-save_status s = record { at = λ w h. h }

  pub Makes-delete_workload : (id : String) → Makes P old (delete_workload env id)
  unfolding delete_workload update
  Makes-delete_workload id = record { at = λ w h. h }

  pub Makes-act : (c : Call) → P c → Makes P old (act env c)
  unfolding act
  Makes-act c p = record { at = λ w h. added p h }

  pub Makes-read_status :
      (rt : WorkloadType) (id : String)
      → P (reads_status rt id)
      → Makes P old (read_status env rt id)
  unfolding read_status
  Makes-read_status rt id p = record { at = λ w h. added p h }

  pub Makes-read_metadata :
      (rt : WorkloadType) (id : String)
      → P (reads_metadata rt id)
      → Makes P old (read_metadata env rt id)
  unfolding read_metadata
  Makes-read_metadata rt id p = record { at = λ w h. added p h }

  pub Makes-check_resources : P checks_resources → Makes P old (check_resources env)
  unfolding check_resources
  Makes-check_resources p = record { at = λ w h. added p h }

  pub Makes-record_retry_failure :
      (id : String) (t : RetryTracker) (reason : FailureReason) (message : String)
      → Makes P old (record_retry_failure env id t reason message)
  unfolding record_retry_failure now put_tracker
  Makes-record_retry_failure id t reason message = record { at = λ w h. h }

  pub Makes-enrich_status :
      (rt : WorkloadType) (id : String) (s : WorkloadStatus)
      → P (reads_metadata rt id)
      → Makes P old (enrich_status env rt id s)
  unfolding enrich_status
  Makes-enrich_status rt id s p = search (keeps_rules, Makes-read_metadata)

pub ruleset makes_rules = (
  keeps_rules, Makes-now, Makes-get_workload, Makes-get_status, Makes-save_workload,
  Makes-save_status, Makes-delete_workload, Makes-act, Makes-read_status, Makes-read_metadata,
  Makes-check_resources, Makes-get_retry_tracker, Makes-reset_retry_tracker,
  Makes-record_retry_failure, Makes-enrich_status,
)

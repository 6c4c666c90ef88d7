-- ===== src/Workload/Apply/Fresh.antt =====
-- Which ways through `ApplyWorkload` (internal/workload/manager.go) do not report a skipped apply.
use compute_agent.Base.{Bool, true, false, Option, none, some, List, if◌then◌else◌}
use compute_agent.Errors.{Err, Result, ok, err}
use compute_agent.Models.{WorkloadType, Workload, WorkloadStatus}
use compute_agent.Workload.World.{
  World, Env, M, pure, ◌>>=◌, on_result, on_error, Availability, available, check_failed, short_of,
}
use compute_agent.Workload.Storage.{Allocation}
use compute_agent.Workload.Apply.{
  Outcome, applied, rejected, unsaved, finish_apply, abandon_start, abandon_create, start_created,
  create_prepared, save_prepared, reject_storage, save_and_create, replace_and_create, admit,
  create_workload, transition_or_reject,
}

-- The outcome is not reported xs skipped.
abbrev pub IsDone : Outcome → Type 0
IsDone (applied s true) = ⊥
IsDone (applied s false) = Unit
IsDone (rejected e) = Unit
IsDone (unsaved s e) = Unit

-- Every run of `m` ends with such an outcome.
pub record Does (m : M Outcome) : Type 0 where
  pub at : (w : World) → IsDone (m w).0

pub Does-pure : (o : Outcome) → IsDone o → Does (pure o)
Does-pure o h = record { at = λ w. h }

pub Does-if : (b : Bool) (m n : M Outcome) → Does m → Does n → Does (if b then m else n)
Does-if true m n h k = h
Does-if false m n h k = k

module _ {ℓ} {A : Type ℓ} where
  pub Does-bind : (m : M A) (f : A → M Outcome) → ((a : A) → Does (f a)) → Does (m >>= f)
  Does-bind m f h = record { at = λ w. (h (m w).0).at (m w).1 }

  pub Does-on_result :
      (r : Result A) (f : A → M Outcome) (g : Err → M Outcome)
      → ((a : A) → Does (f a))
      → ((e : Err) → Does (g e))
      → Does (on_result r f g)
  Does-on_result (ok a) f g h k = h a
  Does-on_result (err e) f g h k = k e

  pub Does-on_error :
      (e : Option A) (m : M Outcome) (g : A → M Outcome)
      → Does m
      → ((a : A) → Does (g a))
      → Does (on_error e m g)
  Does-on_error none m g h k = h
  Does-on_error (some a) m g h k = k a

ruleset does_rules = (Does-pure, Does-if, Does-bind, Does-on_result, Does-on_error)

module _ (env : Env) where
  Does-finish_apply : (w : Workload) (rt : WorkloadType) → Does (finish_apply env w rt)
  unfolding finish_apply
  Does-finish_apply w rt = search does_rules depth 12

  Does-start_created :
      (w : Workload) (rt : WorkloadType) (xs : List Allocation) → Does (start_created env w rt xs)
  unfolding start_created abandon_start
  Does-start_created w rt xs = search (does_rules, Does-finish_apply) depth 12

  Does-create_prepared :
      (w : Workload) (rt : WorkloadType) (xs : List Allocation) → Does (create_prepared env w rt xs)
  unfolding create_prepared abandon_create
  Does-create_prepared w rt xs = search (does_rules, Does-start_created) depth 12

  Does-save_prepared :
      (rt : WorkloadType) (p : Workload × List Allocation) → Does (save_prepared env rt p)
  unfolding save_prepared
  Does-save_prepared rt (w, xs) = search (does_rules, Does-create_prepared) depth 12

  Does-reject_storage : (w : Workload) (e : Err) → Does (reject_storage env w e)
  unfolding reject_storage
  Does-reject_storage w e = search does_rules depth 12

  Does-save_and_create : (w : Workload) (rt : WorkloadType) → Does (save_and_create env w rt)
  unfolding save_and_create
  Does-save_and_create w rt = search (does_rules, Does-save_prepared, Does-reject_storage) depth 14

  Does-replace_and_create :
      (existing : Option Workload) (w : Workload) (rt : WorkloadType)
      → Does (replace_and_create env existing w rt)
  unfolding replace_and_create
  Does-replace_and_create existing w rt = search (does_rules, Does-save_and_create) depth 12

  Does-admit :
      (existing : Option Workload) (w : Workload) (rt : WorkloadType) (a : Availability)
      → Does (admit env existing w rt a)
  unfolding admit
  Does-admit existing w rt available = search Does-replace_and_create
  Does-admit existing w rt (check_failed e) = search does_rules
  Does-admit existing w rt (short_of issues) = search does_rules depth 12

  pub Does-create_workload :
      (existing : Option Workload) (w : Workload) → Does (create_workload env existing w)
  unfolding create_workload
  Does-create_workload existing w =
      search (does_rules, Does-admit, Does-replace_and_create) depth 12

  pub Does-transition_or_reject :
      (existing : Workload) (s : WorkloadStatus) → Does (transition_or_reject env existing s)
  unfolding transition_or_reject
  Does-transition_or_reject existing s = search does_rules depth 12

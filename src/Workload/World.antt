-- ===== src/Workload/World.antt =====
-- The world of the workload manager (internal/workload/manager.go, `Manager`): the buckets of the
-- store, the retry trackers, and the calls made to runtimes, volume manager and resource monitor.
-- What these answer, when a database transaction fails and what the clock shows is not decided
-- here: it is an `Env`, whose answers may depend on all calls made so far, the newest first.
-- A method holds the lock of its workload from its first step to its last, so it runs as one step.
use compute_agent.Base.{
  ℕ, suc, String, ◌<>◌, Bool, Option, none, some, List, [], ◌∷◌, if◌then◌else◌,
}
use compute_agent.Base.Dict
use compute_agent.Base.Dict.{Dict}
use compute_agent.Models.{
  Time, WorkloadType, container, compose, vm, other_type, ActualState, Fields, Workload,
  WorkloadStatus,
}
use compute_agent.Volumes.{VolumeSpec, VolumeHandle, VolumeAttachment}
use compute_agent.Specs.{ContainerSpec, VmSpec}
use compute_agent.Errors.{Err, plain, Result, ok, err}
use compute_agent.Retry.Reason.{FailureReason}
use compute_agent.Retry.Tracker.{
  Backoff, RetryPolicy, RetryTracker, new_retry_tracker, record_failure, Recorded,
  default_retry_policy,
}
use compute_agent.State
use compute_agent.State.{
  Buckets, no_buckets, stamp_workload, stamp_status, stamp_volume, stamp_attachment, has_id,
}

pub data Call : Type 0 where
  creates : WorkloadType → Workload → Call
  starts stops deletes reads_status reads_metadata : WorkloadType → String → Call
  lists : WorkloadType → Call
  checks_resources : Call
  provisions : VolumeSpec → Call
  attaches : VolumeSpec → VolumeHandle → String → Call
  detaches : VolumeAttachment → Call
  deletes_volume : VolumeHandle → Call

-- `IsResourceAvailable`
pub data Availability : Type 0 where
  check_failed : String → Availability
  available : Availability
  short_of : List String → Availability

pub record Env : Type 0 where
  -- the `n`th reading of the clock
  pub clock : ℕ → Time
  -- what goes wrong in the `n`th transaction of the database
  pub transaction_error : ℕ → Option String
  -- `Time.Format` for `time.RFC3339`, in the local zone and in UTC, and `time.Parse`
  pub format_time : Time → String
  pub format_utc : Time → String
  pub parse_time : String → Option Time
  pub backoff : Backoff
  pub has_runtime : WorkloadType → Bool
  pub provides_metadata : WorkloadType → Bool
  pub has_resource_monitor : Bool
  pub has_volume_manager : Bool
  -- the error of `Create`, `Start`, `Stop`, `Delete`, `Detach`
  pub action_error : List Call → Option String
  pub status_answer : List Call → Result (ActualState × String)
  pub metadata_answer : List Call → Result (Dict String)
  -- `List` of a runtime
  pub list_answer : List Call → Result (List String)
  pub availability : List Call → Availability
  pub provision_answer : List Call → Result VolumeHandle
  pub attach_answer : List Call → Result VolumeAttachment
  -- `json.Marshal` and `json.Unmarshal` between a stored specification and its struct
  pub decode_container : Fields → Result ContainerSpec
  pub encode_container : ContainerSpec → Result Fields
  pub decode_vm : Fields → Result VmSpec
  pub encode_vm : VmSpec → Result Fields
  -- `%q`
  pub quote : String → String

pub record World : Type 0 where
  pub reads : ℕ
  pub transactions : ℕ
  pub calls : List Call
  pub buckets : Buckets
  pub trackers : Dict RetryTracker
  pub retry_policy : RetryPolicy

-- `NewManager` over a new store.
abbrev pub new_world : World
new_world = record {
  reads = 0;
  transactions = 0;
  calls = [];
  buckets = no_buckets;
  trackers = [];
  retry_policy = default_retry_policy;
}

abbrev pub M {ℓ} : Type ℓ → Type ℓ
M A = World → A × World

infixl 5 ◌>>=◌ ◌>>◌
abbrev pub pure {ℓ} : {A : Type ℓ} → A → M A
pure a w = (a, w)

abbrev pub ◌>>=◌ {ℓ κ} : {A : Type ℓ} {B : Type κ} → M A → (A → M B) → M B
◌>>=◌ m f w = let (a, w') = m w in f a w'

abbrev pub ◌>>◌ {ℓ κ} : {A : Type ℓ} {B : Type κ} → M A → M B → M B
m >> k = m >>= λ _. k

-- `if err != nil`, for a call with a result.
abbrev pub on_result {ℓ κ} : {A : Type ℓ} {B : Type κ} → Result A → (A → M B) → (Err → M B) → M B
on_result (ok a) f g = f a
on_result (err e) f g = g e

-- `if err != nil`, for a call with an error alone.
abbrev pub on_error {ℓ κ} : {E : Type ℓ} {B : Type κ} → Option E → M B → (E → M B) → M B
on_error none f g = f
on_error (some e) f g = g e

unfoldable pub type_text : WorkloadType → String
type_text container = "container"
type_text compose = "compose"
type_text vm = "vm"
type_text (other_type s) = s

-- The outcome of a read transaction.
abbrev found {ℓ} : {A : Type ℓ} → Option String → Option A → String → Result A
found (some e) a missing = err (plain e)
found none none missing = err (plain missing)
found none (some a) missing = ok a

abbrev listed {ℓ} : {A : Type ℓ} → Option String → A → Result A
listed (some e) a = err (plain e)
listed none a = ok a

abbrev failure : Option String → Option Err
failure none = none
failure (some e) = some (plain e)

-- A transaction that fails is rolled back.
abbrev committed : Option String → Buckets → Buckets → Buckets
committed none new old = new
committed (some e) new old = old

module _ (env : Env) where
  -- `time.Now`
  unfoldable pub now : M Time
  now w = (env.clock w.reads, record w { reads = suc w.reads })

  -- `db.View`
  view {ℓ} : {A : Type ℓ} → (Option String → Buckets → A) → M A
  view f w = (
    f (env.transaction_error w.transactions) w.buckets,
    record w { transactions = suc w.transactions },
  )

  -- `db.Update`
  unfoldable pub update : (Buckets → Buckets) → M (Option Err)
  update f w =
      let e = env.transaction_error w.transactions in
      (
        failure e,
        record w {
          transactions = suc w.transactions;
          buckets = committed e (f w.buckets) w.buckets;
        },
      )

  unfoldable pub get_workload : String → M (Result Workload)
  unfolding view
  get_workload id = view (λ e b. found e (State.get_workload id b) "workload not found")

  unfoldable pub get_status : String → M (Result WorkloadStatus)
  unfolding view
  get_status id = view (λ e b. found e (State.get_status id b) "status not found")

  unfoldable pub list_workloads : M (Result (List Workload))
  unfolding view
  list_workloads = view (λ e b. listed e (State.list_workloads b))

  unfoldable pub list_statuses : M (Result (List WorkloadStatus))
  unfolding view
  list_statuses = view (λ e b. listed e (State.list_statuses b))

  -- The error, and the object with the times that the save writes into it.
  unfoldable pub save_workload : Workload → M (Option Err × Workload)
  save_workload x = do t ← now; e ← update (State.save_workload t x); pure (e, stamp_workload t x)

  unfoldable pub save_status : WorkloadStatus → M (Option Err × WorkloadStatus)
  save_status s = do t ← now; e ← update (State.save_status t s); pure (e, stamp_status t s)

  -- `return m.store.SaveStatus(status)`
  abbrev pub store_status : WorkloadStatus → M (Option Err)
  store_status s = do (e, s') ← save_status s; pure e

  unfoldable pub delete_workload : String → M (Option Err)
  delete_workload id = update (State.delete_workload id)

  -- `runtimeMgr.GetRuntime`
  unfoldable pub get_runtime : WorkloadType → Result WorkloadType
  unfolding type_text
  get_runtime kind =
      if env.has_runtime kind
      then ok kind
      else err (plain ("runtime not available for type: " <> type_text kind))

  -- A call that answers with an error or nothing.
  unfoldable pub act : Call → M (Option String)
  act c w = let cs = c ∷ w.calls in (env.action_error cs, record w { calls = cs })

  -- `rt.Status`
  unfoldable pub read_status : WorkloadType → String → M (Result (ActualState × String))
  read_status rt id w =
      let cs = reads_status rt id ∷ w.calls in (env.status_answer cs, record w { calls = cs })

  unfoldable pub read_metadata : WorkloadType → String → M (Result (Dict String))
  read_metadata rt id w =
      let cs = reads_metadata rt id ∷ w.calls in (env.metadata_answer cs, record w { calls = cs })

  -- `rt.List`
  unfoldable pub list_resources : WorkloadType → M (Result (List String))
  list_resources rt w = let cs = lists rt ∷ w.calls in (env.list_answer cs, record w { calls = cs })

  -- `resourceMonitor.IsResourceAvailable`
  unfoldable pub check_resources : M Availability
  check_resources w =
      let cs = checks_resources ∷ w.calls in (env.availability cs, record w { calls = cs })

module _ (env : Env) where
  -- The volume that is saved bears the times of the save, unless its identifier is refused.
  unfoldable pub save_volume : VolumeHandle → M (Option Err × VolumeHandle)
  save_volume h =
      if has_id h.id
      then (do t ← now env; e ← update env (State.save_volume t h); pure (e, stamp_volume t h))
      else pure (some (plain "volume handle id is required"), h)

  unfoldable pub save_attachment : VolumeAttachment → M (Option Err × VolumeAttachment)
  save_attachment a =
      if has_id a.id
      then (do
        t ← now env
        e ← update env (State.save_attachment t a)
        pure (e, stamp_attachment t a))
      else pure (some (plain "volume attachment id is required"), a)

  unfoldable pub delete_volume : String → M (Option Err)
  delete_volume id = update env (State.delete_volume id)

  unfoldable pub delete_attachment : String → M (Option Err)
  delete_attachment id = update env (State.delete_attachment id)

  unfoldable pub get_volume : String → M (Result VolumeHandle)
  unfolding view
  get_volume id = view env (λ e b. found e (State.get_volume id b) "volume not found")

  unfoldable pub list_attachments : String → M (Result (List VolumeAttachment))
  unfolding view
  list_attachments id = view env (λ e b. listed e (State.list_attachments id b))

  -- `volumeMgr.Provision`
  unfoldable pub provision : VolumeSpec → M (Result VolumeHandle)
  provision s w =
      let cs = provisions s ∷ w.calls in (env.provision_answer cs, record w { calls = cs })

  -- `volumeMgr.Attach`
  unfoldable pub attach : VolumeSpec → VolumeHandle → String → M (Result VolumeAttachment)
  attach s h id w =
      let cs = attaches s h id ∷ w.calls in (env.attach_answer cs, record w { calls = cs })

-- The tracker of a workload, a new one if there is none.
abbrev pub tracker_or_new : Option RetryTracker → RetryPolicy → RetryTracker
tracker_or_new none p = new_retry_tracker (some p)
tracker_or_new (some t) p = t

unfoldable pub put_tracker : String → RetryTracker → M (Unit {0})
put_tracker id t w = (tt, record w { trackers = Dict.put id t w.trackers })

-- `getRetryTracker`
unfoldable pub get_retry_tracker : String → M RetryTracker
get_retry_tracker id w =
    let t = tracker_or_new (Dict.get id w.trackers) w.retry_policy in
    (t, record w { trackers = Dict.put id t w.trackers })

-- `resetRetryTracker`
unfoldable pub reset_retry_tracker : String → M (Unit {0})
reset_retry_tracker id w = (tt, record w { trackers = Dict.remove id w.trackers })

-- `SetRetryPolicy`; a nil policy is the default one.
unfoldable pub set_retry_policy : Option RetryPolicy → M (Unit {0})
set_retry_policy none w = (tt, record w { retry_policy = default_retry_policy })
set_retry_policy (some p) w = (tt, record w { retry_policy = p })

module _ (env : Env) where
  -- `tracker.RecordFailure`, on the tracker that the map holds.
  unfoldable pub record_retry_failure :
      String → RetryTracker → FailureReason → String → M (RetryTracker × Recorded)
  record_retry_failure id t reason message = do
    t1 ← now env
    t2 ← now env
    let result = record_failure env.backoff t reason message t1 t2
    put_tracker id result.0
    pure result

-- ===== src/Models.antt =====
-- pkg/models/workload.go: what the agent stores of a workload and of its status.
-- A Go map that is nil reads as an empty one, and the code makes the map before each write, so a
-- nil map and an empty map are one value here. Times are nanoseconds since Go's zero time.
use compute_agent.Base.{ℕ, arith, ◌≡◌, String, Bool, true, false, Option, ◌==◌}
use compute_agent.Base.Int.{ℤ}
use compute_agent.Base.Dict.{Dict}

pub data WorkloadType : Type 0 where
  container compose vm : WorkloadType
  other_type : String → WorkloadType

pub data DesiredState : Type 0 where
  desired_running desired_stopped : DesiredState
  other_desired : String → DesiredState

pub data ActualState : Type 0 where
  pending running stopped failed unknown : ActualState

abbrev pub wants_running : DesiredState → Bool
wants_running desired_running = true
wants_running desired_stopped = false
wants_running (other_desired s) = false

abbrev pub wants_stopped : DesiredState → Bool
wants_stopped desired_running = false
wants_stopped desired_stopped = true
wants_stopped (other_desired s) = false

pub stopped_not_running : (d : DesiredState) → wants_running d ≡ true → wants_stopped d ≡ false
stopped_not_running d h = ground arith

abbrev pub is_pending : ActualState → Bool
is_pending pending = true
is_pending running = false
is_pending stopped = false
is_pending failed = false
is_pending unknown = false

abbrev pub is_running : ActualState → Bool
is_running pending = false
is_running running = true
is_running stopped = false
is_running failed = false
is_running unknown = false

abbrev pub is_failed : ActualState → Bool
is_failed pending = false
is_failed running = false
is_failed stopped = false
is_failed failed = true
is_failed unknown = false

abbrev pub is_unknown : ActualState → Bool
is_unknown pending = false
is_unknown running = false
is_unknown stopped = false
is_unknown failed = false
is_unknown unknown = true

-- `time.Time`
abbrev pub Time : Type 0
Time = ℕ

abbrev pub zero_time : Time
zero_time = 0

-- `Time.IsZero`
abbrev pub is_zero_time : Time → Bool
is_zero_time t = t == 0

-- The bits of a `float64`; no operation on it is defined here.
pub record Float64 : Type 0 where
  pub bits : ℕ

-- A decoded `interface{}`.
mutual
  pub data Json : Type 0 where
    null : Json
    bool : Bool → Json
    number : Float64 → Json
    text : String → Json
    array : Items → Json
    object : Fields → Json

  pub data Items : Type 0 where
    no_items : Items
    item : Json → Items → Items

  pub data Fields : Type 0 where
    no_fields : Fields
    field : String → Json → Fields → Fields

pub record Workload : Type 0 where
  pub id : String
  pub kind : WorkloadType
  pub revision_id : String
  pub desired_state : DesiredState
  pub spec : Fields
  pub created_at : Time
  pub updated_at : Time

pub record WorkloadUsage : Type 0 where
  pub workload_id : String
  pub kind : String
  pub cpu_percent : Float64
  pub memory_bytes : ℤ
  pub disk_read_bytes : ℤ
  pub disk_write_bytes : ℤ
  pub net_rx_bytes : ℤ
  pub net_tx_bytes : ℤ
  pub collected_at : Time
  pub source : String

pub record WorkloadStatus : Type 0 where
  pub id : String
  pub kind : WorkloadType
  pub revision_id : String
  pub desired_state : DesiredState
  pub actual_state : ActualState
  pub message : String
  pub created_at : Time
  pub updated_at : Time
  pub metadata : Dict String
  pub usage : Option WorkloadUsage

-- ===== src/Control/Messages.antt =====
-- api/proto/control.proto: the messages between agent and scheduler. A timestamp is an instant.
use compute_agent.Base.{String, Bool, Option, List}
use compute_agent.Base.Int.{ℤ}
use compute_agent.Base.Dict.{Dict}
use compute_agent.Models.{Time, Float64}

pub record StoragePool : Type 0 where
  pub name : String
  pub kind : String
  pub total_gb : ℤ

pub record NodeCapabilities : Type 0 where
  pub cpu_total_millicores : ℤ
  pub memory_total_mb : ℤ
  pub storage_pools : List StoragePool
  pub supported_workload_types : List String
  pub supported_storage_drivers : List String

pub record RegisterNodeRequest : Type 0 where
  pub node_id : String
  pub capabilities : NodeCapabilities
  pub labels : Dict String
  pub agent_version : String
  pub grpc_endpoint : String
  pub cluster_id : String
  pub timestamp : Time

pub record RegisterNodeResponse : Type 0 where
  pub accepted : Bool
  pub reason : String
  pub heartbeat_interval_seconds : ℤ
  pub lease_expires_at : Option Time

pub record NodeUsage : Type 0 where
  pub cpu_allocated_millicores : ℤ
  pub cpu_used_millicores : ℤ
  pub memory_allocated_mb : ℤ
  pub memory_used_mb : ℤ
  pub disk_allocated_gb : ℤ
  pub disk_used_gb : ℤ

pub record HeartbeatResponse : Type 0 where
  pub acknowledged : Bool
  pub drain_node : Bool
  pub lease_expires_at : Option Time

pub data FailureReason : Type 0 where
  reason_unspecified image_pull_failed image_not_found insufficient_resources : FailureReason
  invalid_spec runtime_error network_error storage_error vm_boot_failed : FailureReason

pub record ReasonDetail : Type 0 where
  pub code : String
  pub message : String
  pub last_transition : Time
  pub next_retry_at : Option Time
  pub retryable : Bool

pub record WorkloadUsageSnapshot : Type 0 where
  pub workload_id : String
  pub kind : String
  pub cpu_percent : Float64
  pub memory_bytes : ℤ
  pub disk_read_bytes : ℤ
  pub disk_write_bytes : ℤ
  pub net_rx_bytes : ℤ
  pub net_tx_bytes : ℤ
  pub collected_at : Time
  pub source : String

pub record WorkloadStatus : Type 0 where
  pub workload_id : String
  pub state : String
  pub failure_reason : FailureReason
  pub message : String
  pub last_transition : Time
  pub reason : Option ReasonDetail
  pub usage : Option WorkloadUsageSnapshot

pub record HeartbeatRequest : Type 0 where
  pub node_id : String
  pub usage : NodeUsage
  pub workload_statuses : List WorkloadStatus
  pub timestamp : Time
  pub workload_usage : List WorkloadUsageSnapshot

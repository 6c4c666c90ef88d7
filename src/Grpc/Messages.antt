-- ===== src/Grpc/Messages.antt =====
-- api/proto/agent.proto: the messages of the agent's service. An enumeration of proto3 is open, so
-- each has a constructor for the numbers that have no name.
use compute_agent.Base.{String, Bool, Option, List}
use compute_agent.Base.Int.{ℤ}
use compute_agent.Base.Dict.{Dict}
use compute_agent.Models.{Float64}
use compute_agent.Specs.{VolumeMount, PortMapping}

pub data WorkloadType : Type 0 where
  type_unspecified type_container type_compose type_vm : WorkloadType
  type_number : ℤ → WorkloadType

pub data DesiredState : Type 0 where
  desired_unspecified desired_running desired_stopped : DesiredState
  desired_number : ℤ → DesiredState

pub data ActualState : Type 0 where
  actual_unspecified actual_pending actual_running actual_stopped : ActualState
  actual_failed actual_unknown : ActualState
  actual_number : ℤ → ActualState

pub record ManagedVolumeSpec : Type 0 where
  pub name : String
  pub driver : String
  pub size_gb : ℤ
  pub access_mode : String
  pub fs_type : String
  pub mount_path : String
  pub read_only : Bool
  pub retain_policy : String

pub record ResourceLimits : Type 0 where
  pub cpu_shares : ℤ
  pub memory_bytes : ℤ
  pub memory_swap_bytes : ℤ

pub record RestartPolicy : Type 0 where
  pub policy : String
  pub max_retry_count : ℤ

pub record ContainerSpec : Type 0 where
  pub image : String
  pub command : List String
  pub args : List String
  pub env : Dict String
  pub volumes : List VolumeMount
  pub ports : List PortMapping
  pub resources : Option ResourceLimits
  pub restart_policy : Option RestartPolicy
  pub labels : Dict String
  pub managed_volumes : List ManagedVolumeSpec

pub record ComposeSpec : Type 0 where
  pub project_name : String
  pub compose_yaml : String
  pub env : Dict String

pub record DiskConfig : Type 0 where
  pub path : String
  pub device : String
  pub format : String
  pub size_gb : ℤ
  pub kind : String
  pub boot : Bool

pub record NetworkConfig : Type 0 where
  pub network : String
  pub mac_address : String
  pub ip_address : String

pub record CloudInitConfig : Type 0 where
  pub user_data : String
  pub meta_data : String
  pub network_config : String
  pub vendor_data : String

pub record VmSpec : Type 0 where
  pub name : String
  pub vcpus : ℤ
  pub memory_mb : ℤ
  pub disks : List DiskConfig
  pub networks : List NetworkConfig
  pub cloud_init : String
  pub metadata : Dict String
  pub cloud_init_config : Option CloudInitConfig
  pub managed_volumes : List ManagedVolumeSpec

-- The `oneof` of `WorkloadSpec`; a specification that is missing or empty is `no_spec`.
pub data WorkloadSpec : Type 0 where
  no_spec : WorkloadSpec
  container_spec : ContainerSpec → WorkloadSpec
  compose_spec : ComposeSpec → WorkloadSpec
  vm_spec : VmSpec → WorkloadSpec

pub record ApplyWorkloadRequest : Type 0 where
  pub id : String
  pub kind : WorkloadType
  pub revision_id : String
  pub desired_state : DesiredState
  pub spec : WorkloadSpec

pub record WorkloadUsageSnapshot : Type 0 where
  pub workload_id : String
  pub kind : WorkloadType
  pub cpu_percent : Float64
  pub memory_bytes : ℤ
  pub disk_read_bytes : ℤ
  pub disk_write_bytes : ℤ
  pub net_rx_bytes : ℤ
  pub net_tx_bytes : ℤ
  pub collected_at : ℤ
  pub source : String

pub record WorkloadStatus : Type 0 where
  pub id : String
  pub kind : WorkloadType
  pub revision_id : String
  pub desired_state : DesiredState
  pub actual_state : ActualState
  pub message : String
  pub created_at : ℤ
  pub updated_at : ℤ
  pub metadata : Dict String
  pub usage : Option WorkloadUsageSnapshot

pub record ApplyWorkloadResponse : Type 0 where
  pub applied : Bool
  pub skipped : Bool
  pub message : String
  pub status : Option WorkloadStatus

pub record DeleteWorkloadResponse : Type 0 where
  pub success : Bool
  pub message : String

pub record ListActionsRequest : Type 0 where
  pub workload_id : String
  pub action_type : String
  pub status : String
  pub limit : ℤ
  pub newest_first : Bool

pub record AgentAction : Type 0 where
  pub task_id : String
  pub workload_id : String
  pub action_type : String
  pub status : String
  pub error : String
  pub created_at : ℤ
  pub started_at : ℤ
  pub ended_at : ℤ

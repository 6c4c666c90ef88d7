-- ===== src/Specs.antt =====
-- pkg/models/workload.go: the specifications of containers and virtual machines.
use compute_agent.Base.{String, Bool, Option, List}
use compute_agent.Base.Int.{ℤ}
use compute_agent.Base.Dict.{Dict}
use compute_agent.Volumes.{ManagedVolumeSpec}

pub record VolumeMount : Type 0 where
  pub host_path : String
  pub container_path : String
  pub read_only : Bool

pub record PortMapping : Type 0 where
  pub host_port : ℤ
  pub container_port : ℤ
  pub protocol : String

pub record ResourceLimits : Type 0 where
  pub cpu_shares : ℤ
  pub memory_bytes : ℤ
  pub memory_swap_bytes : ℤ

pub record RestartPolicy : Type 0 where
  pub policy : String
  pub max_retry_count : ℤ

pub record ContainerSpec : Type 0 where
  pub image : String
  pub command : List String
  pub args : List String
  pub variables : Dict String
  pub volumes : List VolumeMount
  pub managed_volumes : List ManagedVolumeSpec
  pub ports : List PortMapping
  pub resources : Option ResourceLimits
  pub restart_policy : Option RestartPolicy
  pub labels : Dict String

pub record DiskConfig : Type 0 where
  pub path : String
  pub device : String
  pub format : String
  pub size_gb : ℤ
  pub kind : String
  pub boot : Bool

pub record NetworkConfig : Type 0 where
  pub network : String
  pub mac_address : String
  pub ip_address : String

pub record CloudInitConfig : Type 0 where
  pub user_data : String
  pub meta_data : String
  pub network_config : String
  pub vendor_data : String

pub record VmSpec : Type 0 where
  pub name : String
  pub vcpus : ℤ
  pub memory_mb : ℤ
  pub disks : List DiskConfig
  pub networks : List NetworkConfig
  pub cloud_init : String
  pub metadata : Dict String
  pub cloud_init_config : Option CloudInitConfig
  pub managed_volumes : List ManagedVolumeSpec

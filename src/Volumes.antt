-- ===== src/Volumes.antt =====
-- internal/platform/types.go and pkg/models/workload.go: managed volumes.
use compute_agent.Base.{String, Bool, trim_space}
use compute_agent.Base.Int.{ℤ}
use compute_agent.Base.Dict.{Dict}
use compute_agent.Models.{Time}

-- `models.ManagedVolumeSpec`
pub record ManagedVolumeSpec : Type 0 where
  pub name : String
  pub driver : String
  pub size_gb : ℤ
  pub access_mode : String
  pub fs_type : String
  pub mount_path : String
  pub read_only : Bool
  pub retain_policy : String

-- `platform.VolumeSpec`
pub record VolumeSpec : Type 0 where
  pub name : String
  pub driver : String
  pub size_gb : ℤ
  pub access_mode : String
  pub fs_type : String
  pub mount_path : String
  pub read_only : Bool
  pub retain_policy : String

pub record VolumeHandle : Type 0 where
  pub id : String
  pub name : String
  pub driver : String
  pub size_gb : ℤ
  pub device : String
  pub stage_path : String
  pub metadata : Dict String
  pub created_at : Time
  pub updated_at : Time

pub record VolumeAttachment : Type 0 where
  pub id : String
  pub volume_id : String
  pub workload_id : String
  pub mount_path : String
  pub read_only : Bool
  pub stage_path : String
  pub metadata : Dict String
  pub created_at : Time
  pub updated_at : Time

-- `VolumeSpecFromModel`
unfoldable pub volume_spec_from_model : ManagedVolumeSpec → VolumeSpec
volume_spec_from_model s = record {
  name = trim_space s.name;
  driver = trim_space s.driver;
  size_gb = s.size_gb;
  access_mode = trim_space s.access_mode;
  fs_type = trim_space s.fs_type;
  mount_path = trim_space s.mount_path;
  read_only = s.read_only;
  retain_policy = trim_space s.retain_policy;
}

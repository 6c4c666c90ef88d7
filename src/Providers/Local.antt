-- ===== src/Providers/Local.antt =====
-- internal/storage/providers/local_provider.go: volumes that are directories of the node.
pub mod Root
use compute_agent.Base.{
  String, ◌<>◌, Bool, true, false, Option, none, some, List, [], ◌∷◌, is_blank, trim_space,
  if◌then◌else◌,
}
use compute_agent.Errors.{Err, plain, error_text, Result, ok, err}
use compute_agent.Volumes.{VolumeSpec, VolumeHandle, VolumeAttachment}
use compute_agent.Providers.{
  DirCall, makes, removes, System, S, pure, ◌>>=◌, fail, act, volume_id, or_default,
  normalize_volume_name, safe_join, escapes,
}

pub record LocalProvider : Type 0 where
  pub base_path : String

module _ (sys : System) where
  -- `NewLocalProvider`
  unfoldable pub new_local_provider : String → LocalProvider
  new_local_provider base = record {
    base_path = sys.clean (or_default "/var/lib/persys/volumes/local" (trim_space base));
  }

  abbrev checked : Result String → Option Err
  checked (ok name) = none
  checked (err e) = some e

  -- `Validate`
  unfoldable pub validate : VolumeSpec → Option Err
  validate spec = checked (normalize_volume_name sys spec.name)

  abbrev pub handle : VolumeSpec → String → String → VolumeHandle
  handle spec name path = record {
    id = volume_id "local" name;
    name = name;
    driver = "local";
    size_gb = spec.size_gb;
    device = path;
    stage_path = path;
    metadata = ("driver", "local") ∷ ("fs_type", trim_space spec.fs_type) ∷ [];
    created_at = sys.now;
    updated_at = sys.now;
  }

  abbrev pub made : VolumeSpec → String → String → Option String → Result VolumeHandle
  made spec name path (some e) = fail ("create local volume directory: " <> e)
  made spec name path none = ok (handle spec name path)

  abbrev pub provision_at : VolumeSpec → String → Result String → S (Result VolumeHandle)
  provision_at spec name (err e) = pure (err e)
  provision_at spec name (ok path) = do e ← act sys (makes path); pure (made spec name path e)

  abbrev pub provision_named : LocalProvider → VolumeSpec → Result String → S (Result VolumeHandle)
  provision_named p spec (err e) = pure (err e)
  provision_named p spec (ok name) = provision_at spec name (safe_join sys p.base_path name)

  -- `Provision`
  unfoldable pub provision : LocalProvider → VolumeSpec → S (Result VolumeHandle)
  provision p spec = provision_named p spec (normalize_volume_name sys spec.name)

  abbrev pub removed : Option String → Option Err
  removed none = none
  removed (some e) = some (plain ("delete local volume path: " <> e))

  abbrev pub delete_at : String → String → Result String → S (Option Err)
  delete_at base path (err e) = pure (some (plain ("validate local delete path: " <> error_text e)))
  delete_at base path (ok rel) =
      if escapes sys rel
      then pure
          (some (plain ("refusing to delete path outside local storage root: " <> sys.quote path)))
      else (do e ← act sys (removes (sys.join base rel)); pure (removed e))

  -- `Delete` of a handle
  unfoldable pub delete : LocalProvider → VolumeHandle → S (Option Err)
  delete p h =
      if is_blank (trim_space h.device)
      then pure none
      else (let base = sys.clean p.base_path in
          let path = sys.clean h.device in delete_at base path (sys.rel base path))

  -- `Attach` of a handle, which cannot fail
  unfoldable pub attach : VolumeHandle → String → String → Bool → VolumeAttachment
  attach h workload_id mount_path read_only = record {
    id = h.id <> ":" <> trim_space workload_id;
    volume_id = h.id;
    workload_id = trim_space workload_id;
    mount_path = trim_space mount_path;
    read_only = read_only;
    stage_path = h.device;
    metadata = ("driver", "local") ∷ [];
    created_at = sys.now;
    updated_at = sys.now;
  }

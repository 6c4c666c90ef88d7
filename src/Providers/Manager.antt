-- ===== src/Providers/Manager.antt =====
-- internal/platform/storage.go: the registry of the storage providers, and the volume manager.
pub mod Routing
use compute_agent.Base.{
  String, ◌<>◌, Bool, true, false, Option, none, some, List, [], ◌∷◌, is_blank, trim_space, lower,
  if◌then◌else◌,
}
use compute_agent.Base.Dict
use compute_agent.Base.Dict.{Dict}
use compute_agent.Errors.{Err, plain, Result, ok, err}
use compute_agent.Volumes.{VolumeSpec, VolumeHandle, VolumeAttachment}
use compute_agent.Providers.{DirCall, System, S, pure, ◌>>=◌, fail}
use compute_agent.Providers.Local
use compute_agent.Providers.Local.{LocalProvider}
use compute_agent.Providers.Remote.{
  NfsProvider, CephRbdProvider, validate_nfs, validate_ceph, provision_nfs, provision_ceph,
  nfs_metadata, ceph_metadata, attach_staged, detach_staged,
}

-- The implementations of `StorageProvider`.
pub data Provider : Type 0 where
  local : LocalProvider → Provider
  nfs : NfsProvider → Provider
  ceph_rbd : CephRbdProvider → Provider

unfoldable pub driver : Provider → String
driver (local p) = "local"
driver (nfs p) = "nfs"
driver (ceph_rbd p) = "ceph-rbd"

module _ (sys : System) where
  unfoldable pub validate : Provider → VolumeSpec → Option Err
  validate (local p) spec = Local.validate sys spec
  validate (nfs p) spec = validate_nfs sys p spec
  validate (ceph_rbd p) spec = validate_ceph sys p spec

  unfoldable pub provision : Provider → VolumeSpec → S (Result VolumeHandle)
  provision (local p) spec = Local.provision sys p spec
  provision (nfs p) spec = pure (provision_nfs sys p spec)
  provision (ceph_rbd p) spec = pure (provision_ceph sys p spec)

  -- The handle is there.
  unfoldable pub attach :
      Provider → VolumeHandle → String → String → Bool → S (Result VolumeAttachment)
  attach (local p) h id path read_only = pure (ok (Local.attach sys h id path read_only))
  attach (nfs p) h id path read_only =
      attach_staged sys "nfs" (nfs_metadata sys p) p.stage_root h id path read_only
  attach (ceph_rbd p) h id path read_only =
      attach_staged sys "ceph-rbd" (ceph_metadata sys p) p.stage_root h id path read_only

  unfoldable pub detach : Provider → VolumeAttachment → S (Option Err)
  detach (local p) a = pure none
  detach (nfs p) a = detach_staged sys a
  detach (ceph_rbd p) a = detach_staged sys a

  unfoldable pub delete : Provider → VolumeHandle → S (Option Err)
  delete (local p) h = Local.delete sys p h
  delete (nfs p) h = pure none
  delete (ceph_rbd p) h = pure none

-- `normalizeDriver`
abbrev pub normalize_driver : String → String
normalize_driver d = lower (trim_space d)

-- `ProviderRegistry`
abbrev pub Registry : Type 0
Registry = Dict Provider

-- `RegisterStorageProvider`; no provider may be given.
unfoldable pub register_storage_provider : Option Provider → Registry → Registry
unfolding driver
register_storage_provider none r = r
register_storage_provider (some p) r =
    let key = normalize_driver (driver p) in if is_blank key then r else Dict.put key p r

-- `StorageProvider`
abbrev pub storage_provider : String → Registry → Option Provider
storage_provider d r = Dict.get (normalize_driver d) r

-- `attachmentDriver`
abbrev pub or_empty : Option String → String
or_empty none = ""
or_empty (some s) = s

abbrev pub attachment_driver : VolumeAttachment → String
attachment_driver a = or_empty (Dict.get "driver" a.metadata)

module _ (sys : System) where
  abbrev pub registered : String → Option Provider → Result Provider
  registered d none = fail ("storage driver " <> sys.quote d <> " is not registered")
  registered d (some p) = ok p

  -- `ResolveProvider`; there may be no registry.
  unfoldable pub resolve_provider : Option Registry → String → Result Provider
  resolve_provider none d = fail "storage provider registry is not configured"
  resolve_provider (some r) d = registered d (storage_provider d r)

  abbrev pub if_valid : Option Err → S (Result VolumeHandle) → S (Result VolumeHandle)
  if_valid none act = act
  if_valid (some e) act = pure (err e)

  abbrev pub provision_with : VolumeSpec → Result Provider → S (Result VolumeHandle)
  provision_with spec (err e) = pure (err e)
  provision_with spec (ok p) = if_valid (validate sys p spec) (provision sys p spec)

  abbrev pub attach_with :
      VolumeSpec → VolumeHandle → String → Result Provider → S (Result VolumeAttachment)
  attach_with spec h id (err e) = pure (err e)
  attach_with spec h id (ok p) = attach sys p h id spec.mount_path spec.read_only

  abbrev pub detach_with : VolumeAttachment → Result Provider → S (Option Err)
  detach_with a (err e) = pure (some e)
  detach_with a (ok p) = detach sys p a

  abbrev pub delete_with : VolumeHandle → Result Provider → S (Option Err)
  delete_with h (err e) = pure (some e)
  delete_with h (ok p) = delete sys p h

  -- `Provision`, `Attach`, `Detach` and `Delete` of the manager
  unfoldable pub provision_volume : Option Registry → VolumeSpec → S (Result VolumeHandle)
  provision_volume r spec = provision_with spec (resolve_provider r spec.driver)

  unfoldable pub attach_volume :
      Option Registry → VolumeSpec → VolumeHandle → String → S (Result VolumeAttachment)
  attach_volume r spec h id = attach_with spec h id (resolve_provider r spec.driver)

  unfoldable pub detach_volume : Option Registry → Option VolumeAttachment → S (Option Err)
  detach_volume r none = pure none
  detach_volume r (some a) = detach_with a (resolve_provider r (attachment_driver a))

  unfoldable pub delete_volume : Option Registry → Option VolumeHandle → S (Option Err)
  delete_volume r none = pure none
  delete_volume r (some h) = delete_with h (resolve_provider r h.driver)

-- ===== src/Providers/Remote.antt =====
-- internal/storage/providers/nfs_provider.go and ceph_rbd_provider.go: volumes that other machines
-- hold, with a directory of the node for each attachment.
use compute_agent.Base.{
  String, ◌<>◌, Bool, Option, none, some, [], ◌∷◌, is_blank, trim_space, if◌then◌else◌,
}
use compute_agent.Base.Dict.{Dict}
use compute_agent.Errors.{Err, plain, Result, ok, err}
use compute_agent.Volumes.{VolumeSpec, VolumeHandle, VolumeAttachment}
use compute_agent.Providers.{
  makes, removes, System, S, pure, ◌>>=◌, fail, act, volume_id, or_default, replace_char,
  normalize_volume_name, safe_join,
}

pub record NfsProvider : Type 0 where
  pub server : String
  pub export_path : String
  pub stage_root : String
  pub mount_options : String

pub record CephRbdProvider : Type 0 where
  pub cluster : String
  pub pool : String
  pub user : String
  pub keyring : String
  pub stage_root : String

abbrev checked : Result String → Option Err
checked (ok name) = none
checked (err e) = some e

module _ (sys : System) where
  -- `NewNFSProvider`
  unfoldable pub new_nfs_provider : String → String → String → String → NfsProvider
  new_nfs_provider server export_path stage_root mount_options = record {
    server = trim_space server;
    export_path = trim_space export_path;
    stage_root = sys.clean (or_default "/var/lib/persys/volumes/nfs" (trim_space stage_root));
    mount_options = trim_space mount_options;
  }

  -- `NewCephRBDProvider`
  unfoldable pub new_ceph_rbd_provider :
      String → String → String → String → String → CephRbdProvider
  new_ceph_rbd_provider cluster pool user keyring stage_root = record {
    cluster = trim_space cluster;
    pool = or_default "rbd" (trim_space pool);
    user = trim_space user;
    keyring = trim_space keyring;
    stage_root = sys.clean (or_default "/var/lib/persys/volumes/ceph-rbd" (trim_space stage_root));
  }

  unfoldable pub validate_nfs : NfsProvider → VolumeSpec → Option Err
  validate_nfs p spec =
      if is_blank (trim_space p.server)
      then some (plain "nfs server is required")
      else if is_blank (trim_space p.export_path)
      then some (plain "nfs export path is required")
      else checked (normalize_volume_name sys spec.name)

  unfoldable pub validate_ceph : CephRbdProvider → VolumeSpec → Option Err
  validate_ceph p spec =
      if is_blank (trim_space p.pool)
      then some (plain "ceph pool is required")
      else checked (normalize_volume_name sys spec.name)

  abbrev nfs_handle : NfsProvider → VolumeSpec → String → VolumeHandle
  nfs_handle p spec name =
      let remote = sys.join_root (trim_space p.export_path) name in
      record {
        id = volume_id "nfs" name;
        name = name;
        driver = "nfs";
        size_gb = spec.size_gb;
        device = "nfs://" <> p.server <> remote;
        stage_path = "";
        metadata =
            ("driver", "nfs")
            ∷ ("nfs_server", p.server)
            ∷ ("nfs_export", p.export_path)
            ∷ ("nfs_path", remote)
            ∷ ("mount_options", p.mount_options)
            ∷ ("fs_type", trim_space spec.fs_type)
            ∷ [];
        created_at = sys.now;
        updated_at = sys.now;
      }

  abbrev ceph_handle : CephRbdProvider → VolumeSpec → String → VolumeHandle
  ceph_handle p spec name = record {
    id = volume_id "ceph-rbd" name;
    name = name;
    driver = "ceph-rbd";
    size_gb = spec.size_gb;
    device = "rbd:" <> p.pool <> "/" <> name;
    stage_path = "";
    metadata =
        ("driver", "ceph-rbd")
        ∷ ("cluster", p.cluster)
        ∷ ("pool", p.pool)
        ∷ ("user", p.user)
        ∷ ("keyring", p.keyring)
        ∷ ("fs_type", trim_space spec.fs_type)
        ∷ [];
    created_at = sys.now;
    updated_at = sys.now;
  }

  abbrev pub nfs_named : NfsProvider → VolumeSpec → Result String → Result VolumeHandle
  nfs_named p spec (err e) = err e
  nfs_named p spec (ok name) = ok (nfs_handle p spec name)

  abbrev pub ceph_named : CephRbdProvider → VolumeSpec → Result String → Result VolumeHandle
  ceph_named p spec (err e) = err e
  ceph_named p spec (ok name) = ok (ceph_handle p spec name)

  -- `Provision` of each; nothing is made yet.
  unfoldable pub provision_nfs : NfsProvider → VolumeSpec → Result VolumeHandle
  provision_nfs p spec = nfs_named p spec (normalize_volume_name sys spec.name)

  unfoldable pub provision_ceph : CephRbdProvider → VolumeSpec → Result VolumeHandle
  provision_ceph p spec = ceph_named p spec (normalize_volume_name sys spec.name)

  abbrev pub nfs_metadata : NfsProvider → Dict String
  nfs_metadata p =
      ("driver", "nfs")
      ∷ ("nfs_server", p.server)
      ∷ ("nfs_export", p.export_path)
      ∷ ("mount_options", p.mount_options)
      ∷ []

  abbrev pub ceph_metadata : CephRbdProvider → Dict String
  ceph_metadata p =
      ("driver", "ceph-rbd")
      ∷ ("cluster", p.cluster)
      ∷ ("pool", p.pool)
      ∷ ("user", p.user)
      ∷ ("keyring", p.keyring)
      ∷ []

  abbrev pub staged :
      VolumeHandle → String → String → Bool → Dict String → String → VolumeAttachment
  staged h workload_id mount_path read_only metadata stage = record {
    id = h.id <> ":" <> trim_space workload_id;
    volume_id = h.id;
    workload_id = trim_space workload_id;
    mount_path = trim_space mount_path;
    read_only = read_only;
    stage_path = stage;
    metadata = metadata;
    created_at = sys.now;
    updated_at = sys.now;
  }

  abbrev pub stage_made : String → VolumeAttachment → Option String → Result VolumeAttachment
  stage_made driver a (some e) = fail ("create " <> driver <> " stage directory: " <> e)
  stage_made driver a none = ok a

  abbrev pub attach_at :
      String
      → Dict String
      → VolumeHandle
      → String
      → String
      → Bool
      → Result String
      → S (Result VolumeAttachment)
  attach_at driver metadata h workload_id mount_path read_only (err e) = pure (err e)
  attach_at driver metadata h workload_id mount_path read_only (ok stage) = do
    e ← act sys (makes stage)
    pure (stage_made driver (staged h workload_id mount_path read_only metadata stage) e)

  -- `Attach` of both, which differ in the driver and in the metadata
  unfoldable pub attach_staged :
      String
      → Dict String
      → String
      → VolumeHandle
      → String
      → String
      → Bool
      → S (Result VolumeAttachment)
  attach_staged driver metadata root h workload_id mount_path read_only =
      attach_at driver metadata h workload_id mount_path read_only
        (safe_join sys root (sys.join (trim_space workload_id) (replace_char b':' "_" h.id)))

  abbrev gone : Option String → Option Err
  gone none = none
  gone (some e) = some (plain e)

  -- `Detach` of both
  unfoldable pub detach_staged : VolumeAttachment → S (Option Err)
  detach_staged a =
      if is_blank (trim_space a.stage_path)
      then pure none
      else (do e ← act sys (removes a.stage_path); pure (gone e))

-- ===== src/Examples/Drives.antt =====
-- Examples of storage providers (internal/storage/providers and internal/platform/storage.go).
use Prim.Native.Char.{Char, code}
use compute_agent.Base.{
  ◌≡◌, ◌≢◌, refl, String, ◌<>◌, true, false, ◌&&◌, ◌||◌, none, some, [], ◌∷◌, leb, str_eq, arith,
  if◌then◌else◌, trim_space, lower, has_prefix,
}
use compute_agent.Base.Dict
use compute_agent.Base.Int.{pos}
use compute_agent.Errors.{ok}
use compute_agent.Volumes.{VolumeSpec, VolumeAttachment}
use compute_agent.Providers.{removes, System, act, safe_join, normalize_volume_name, replace_char}
use compute_agent.Providers.Names.{IsName, normalize_volume_name-IsName}
use compute_agent.Providers.Local.{LocalProvider, handle, provision, delete}
use compute_agent.Providers.Local.Root.{delete-provision-root}
use compute_agent.Providers.Remote.{NfsProvider, attach_staged}
use compute_agent.Providers.Manager
use compute_agent.Providers.Manager.{
  local, nfs, attach_volume, detach_volume, resolve_provider, register_storage_provider, driver,
}
use compute_agent.Providers.Manager.Routing.{registry_of, detach_volume-attach_volume}

abbrev system : System
system = record {
  is_letter = λ c. leb b'a' (code c) && leb (code c) b'z';
  is_digit = λ c. leb b'0' (code c) && leb (code c) b'9';
  to_lower = λ c. c;
  quote = λ s. s;
  clean = λ p. p;
  join = λ a b. if str_eq b "." then a else a <> "/" <> b;
  rel = λ a b. ok (if str_eq a b then "." else b);
  join_root = λ a b. "/" <> a <> "/" <> b;
  dir_error = λ cs. none;
  now = 7;
}

abbrev volume : String → String → VolumeSpec
volume name driver = record {
  name = name;
  driver = driver;
  size_gb = pos 1;
  access_mode = "";
  fs_type = "";
  mount_path = "/data";
  read_only = false;
  retain_policy = "";
}

abbrev disks : LocalProvider
disks = record { base_path = "/volumes" }

abbrev shares : NfsProvider
shares = record {
  server = "nas";
  export_path = "/export";
  stage_root = "/stage";
  mount_options = "";
}

abbrev share : VolumeAttachment
share = record {
  id = "local:a:web";
  volume_id = "local:a";
  workload_id = "web";
  mount_path = "/data";
  read_only = false;
  stage_path = "/stage/web/local_a";
  metadata =
      ("driver", "nfs")
      ∷ ("nfs_server", "nas")
      ∷ ("nfs_export", "/export")
      ∷ ("mount_options", "")
      ∷ [];
  created_at = 7;
  updated_at = 7;
}

letters-ne :
    (c : Char) → (system.is_letter c || system.is_digit c) ≡ true → code (system.to_lower c) ≢ b'/'
letters-ne c h e = ground (arith, h, e)

normalize_volume_name-IsName_example : IsName (normalize_volume_name system " my/data- ")
normalize_volume_name-IsName_example = normalize_volume_name-IsName system letters-ne " my/data- "

-- A volume that is named by a dot.
delete-provision-root_example :
    ((provision system disks (volume "." "local") []).0
      ≡ ok (handle system (volume "." "local") "." "/volumes"))
    × ((delete system disks (handle system (volume "." "local") "." "/volumes") []).1
        ≡ removes "/volumes" ∷ [])
unfolding normalize_volume_name trim_space has_prefix
delete-provision-root_example =
    delete-provision-root system disks (volume "." "local") "." "." [] [] refl refl refl refl refl
      refl refl refl

-- The driver is spelled otherwise than it is registered.
detach_volume-attach_volume_example :
    detach_volume system
      (some (registry_of (some (nfs shares) ∷ some (local disks) ∷ [])))
      (some share)
      []
    ≡ Manager.detach system (nfs shares) share []
unfolding attach_volume resolve_provider register_storage_provider registry_of Dict.get Dict.put
    trim_space Manager.attach attach_staged safe_join act replace_char driver lower has_prefix
detach_volume-attach_volume_example =
    detach_volume-attach_volume system (some (nfs shares) ∷ some (local disks) ∷ [])
      (volume "a" " NFS ") (nfs shares) refl [] []
      (handle system (volume "a" "nfs") "a" "/export/a") "web" share refl

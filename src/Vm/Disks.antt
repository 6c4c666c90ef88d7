-- ===== src/Vm/Disks.antt =====
-- internal/runtime/vm.go, lines 587 to 628 and 860 to 916: the disks of a machine.
pub mod Keeps
use compute_agent.Base.{
  String, ◌<>◌, Bool, true, false, not, ◌&&◌, ◌||◌, Option, none, some, List, [], ◌∷◌, is_some,
  str_eq, is_blank, trim_space, strip_prefix, cut_at, if◌then◌else◌,
}
use compute_agent.Base.Int.{ℤ}
use compute_agent.Errors.{Result, ok, err}
use compute_agent.Specs.{DiskConfig}
use compute_agent.Vm.{Machine, V, pure, ◌>>=◌}
use compute_agent.Vm.Removal.{marker}

pub record DiskSourceHost : Type 0 where
  pub name : String
  pub port : String
  pub transport : String

pub record DiskSource : Type 0 where
  pub file : String
  pub protocol : String
  pub name : String
  pub hosts : List DiskSourceHost

-- What `net/url` makes of a text.
pub record Url : Type 0 where
  pub host : String
  pub hostname : String
  pub port : String
  pub path : String

-- What the file system and the program `qemu-img` answer.
pub record Tools : Type 0 where
  pub parse_url : String → Option Url
  pub directory : String → String
  pub make_directory : String → Option String
  -- format, path and size
  pub qemu_img : String → String → ℤ → Option String
  pub write_error : String → Option String

abbrev network_source : String → String → List DiskSourceHost → DiskSource
network_source protocol name hosts = record {
  file = "";
  protocol = protocol;
  name = name;
  hosts = hosts;
}

abbrev at_host : String → String → List DiskSourceHost
at_host name port = record { name = name; port = port; transport = "" } ∷ []

abbrev rbd_source : String → Option DiskSource
rbd_source name = if is_blank name then none else some (network_source "rbd" name [])

abbrev url_source : Option Url → Option DiskSource
url_source none = none
url_source (some u) =
    if is_blank u.host || (is_blank u.path || is_blank u.hostname)
    then none
    else some (network_source "nfs" u.path (at_host u.hostname u.port))

-- The older form `server:/export/path`
abbrev export_source : Option (String × String) → Option DiskSource
export_source none = none
export_source (some (host, export)) =
    let h = trim_space host in
    let e = trim_space export in
    if is_blank h || is_blank e then none else some (network_source "nfs" ("/" <> e) (at_host h ""))

abbrev nfs_source : Tools → String → Option String → Option DiskSource
nfs_source tools s none = export_source (cut_at ":/" s)
nfs_source tools s (some rest) = url_source (tools.parse_url s)

abbrev source_of : Tools → String → Option String → Option DiskSource
source_of tools s none = nfs_source tools s (strip_prefix "nfs://" s)
source_of tools s (some name) = rbd_source (trim_space name)

-- `diskSourceFromPath`
unfoldable pub disk_source_from_path : Tools → String → Option DiskSource
disk_source_from_path tools path =
    let s = trim_space path in
    if is_blank s then none else source_of tools s (strip_prefix "rbd:" s)

-- `isNetworkDiskPath`
abbrev pub is_network_disk_path : Tools → String → Bool
is_network_disk_path tools path = is_some (disk_source_from_path tools path)

-- A file comes into being, or stays.
abbrev pub add_file : String → Machine → Machine
add_file p m = record m { files = λ q. if str_eq q p then true else m.files q }

abbrev or_qcow2 : String → String
or_qcow2 format = if is_blank format then "qcow2" else format

module _ (tools : Tools) where
  -- The marker is written if that does not fail.
  abbrev mark : String → Machine → Machine
  mark p m = elim (tools.write_error (marker p)) [ none ↦ add_file (marker p) m | some e ↦ m ]

  image_made : DiskConfig → Option String → V (Option String)
  image_made d (some e) m = (some ("failed to create disk image: " <> e), m)
  image_made d none m = (none, mark d.path (add_file d.path m))

  disk_in : DiskConfig → Option String → V (Option String)
  unfolding image_made
  disk_in d (some e) m =
      (some ("failed to create disk directory " <> tools.directory d.path <> ": " <> e), m)
  disk_in d none m =
      if m.files d.path
      then (none, m)
      else image_made d (tools.qemu_img (or_qcow2 d.format) d.path d.size_gb) m

  -- `createDisk`; the result is the error
  unfoldable pub create_disk : DiskConfig → V (Option String)
  unfolding disk_in
  create_disk d = disk_in d (tools.make_directory (tools.directory d.path))

  abbrev is_made : DiskConfig → Bool
  is_made d = not (str_eq d.kind "cdrom") && not (is_network_disk_path tools d.path)

  next_disk : DiskConfig → V (Option String) → Option String → V (Option String)
  next_disk d rest none = rest
  next_disk d rest (some e) = pure (some ("failed to create disk " <> d.path <> ": " <> e))

  -- The loop of `Create` over the disks
  unfoldable pub create_disks : List DiskConfig → V (Option String)
  unfolding create_disk next_disk
  create_disks [] = pure none
  create_disks (d ∷ ds) =
      let rest = create_disks ds in
      if is_made d then (do e ← create_disk d; next_disk d rest e) else rest

-- ===== src/Vm/DomainXml.antt =====
-- internal/runtime/vm.go, lines 993 to 1223: the description of a domain. The XML itself, by
-- `encoding/xml`, is a parameter.
pub mod Boot
use compute_agent.Base.{
  ℕ, suc, String, Bool, true, false, Option, none, some, List, [], ◌∷◌, map, str_eq, decimal,
  if◌then◌else◌,
}
use compute_agent.Base.Int.{ℤ}
use compute_agent.Specs.{DiskConfig, NetworkConfig, VmSpec}
use compute_agent.Vm.Disks.{DiskSource, Tools, disk_source_from_path}

pub record Memory : Type 0 where
  pub unit : String
  pub value : ℤ

pub record Vcpu : Type 0 where
  pub placement : String
  pub value : ℤ

pub record OsType : Type 0 where
  pub arch : String
  pub machine : String
  pub value : String

-- `Boot` has only its order here.
pub record Disk : Type 0 where
  pub kind : String
  pub device : String
  pub driver_name : String
  pub driver_type : String
  pub source : DiskSource
  pub target_dev : String
  pub target_bus : String
  pub boot_order : Option String

pub record Interface : Type 0 where
  pub kind : String
  pub mac_address : String
  pub source_network : String
  pub source_bridge : String
  pub model_type : String

-- A device with a port, such as the console.
pub record Port : Type 0 where
  pub kind : String
  pub target_type : String
  pub target_port : String

pub record Graphics : Type 0 where
  pub kind : String
  pub port : String
  pub listen : String

pub record Devices : Type 0 where
  pub emulator : String
  pub disks : List Disk
  pub interfaces : List Interface
  pub serial : Port
  pub console : Port
  pub graphics : Graphics

pub record Domain : Type 0 where
  pub kind : String
  pub name : String
  pub memory : Memory
  pub current_mem : Memory
  pub vcpu : Vcpu
  pub os : OsType
  pub cpu_mode : String
  pub clock_offset : String
  pub devices : Devices

abbrev file_source : String → DiskSource
file_source path = record { file = path; protocol = ""; name = ""; hosts = [] }

abbrev kind_of : Option DiskSource → String
kind_of none = "file"
kind_of (some s) = "network"

abbrev source_or : String → Option DiskSource → DiskSource
source_or path none = file_source path
source_or path (some s) = s

-- One disk, with the next place in the boot order.
unfoldable pub disk_of : Tools → ℕ → DiskConfig → Disk
disk_of tools n d =
    let network = disk_source_from_path tools d.path in
    let is_cdrom = str_eq d.kind "cdrom" in
    record {
      kind = kind_of network;
      device = if is_cdrom then "cdrom" else "disk";
      driver_name = "qemu";
      driver_type = d.format;
      source = source_or d.path network;
      target_dev = d.device;
      target_bus = if is_cdrom then "sata" else "virtio";
      boot_order = if d.boot then some (decimal n) else none;
    }

-- The loop over the disks, with the next place in the boot order.
unfoldable pub disks_of : Tools → ℕ → List DiskConfig → List Disk
unfolding disk_of
disks_of tools n [] = []
disks_of tools n (d ∷ ds) = disk_of tools n d ∷ disks_of tools (if d.boot then suc n else n) ds

abbrev interface_of : NetworkConfig → Interface
interface_of n = record {
  kind = "network";
  mac_address = n.mac_address;
  source_network = n.network;
  source_bridge = "";
  model_type = "virtio";
}

-- What `generateDomainXML` marshals.
unfoldable pub domain_of : Tools → String → VmSpec → Domain
unfolding disks_of
domain_of tools name s = record {
  kind = "kvm";
  name = name;
  memory = record { unit = "MiB"; value = s.memory_mb };
  current_mem = record { unit = "MiB"; value = s.memory_mb };
  vcpu = record { placement = "static"; value = s.vcpus };
  os = record { arch = "x86_64"; machine = "pc-q35-5.2"; value = "hvm" };
  cpu_mode = "host-passthrough";
  clock_offset = "utc";
  devices = record {
    emulator = "/usr/bin/qemu-system-x86_64";
    disks = disks_of tools 1 s.disks;
    interfaces = map interface_of s.networks;
    serial = record { kind = "pty"; target_type = ""; target_port = "0" };
    console = record { kind = "pty"; target_type = "serial"; target_port = "0" };
    graphics = record { kind = "vnc"; port = "-1"; listen = "0.0.0.0" };
  };
}

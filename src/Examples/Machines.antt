-- ===== src/Examples/Machines.antt =====
-- Examples of virtual machines (internal/runtime/vm.go).
use Prim.Native.String.{len}
use text.Mathlib.TextPositions.{len-append}
use compute_agent.Base.{
  ◌≡◌, ◌≢◌, refl, ap, String, Bool, true, false, none, some, length, [], ◌∷◌, List, ◌<>◌, str_eq,
  arith,
}
use compute_agent.Errors.{ok}
use compute_agent.Vm.{Host, Machine, lookup_domain, act, get_state, Call}
use compute_agent.Vm.States.{DomainState, is_running, is_shutoff, RunningReason, ShutoffReason}
use compute_agent.Vm.Power.{stop}
use compute_agent.Vm.Power.Stopped.{IsStopped, stop-IsStopped}
use compute_agent.Vm.Removal.{delete, marker}
use compute_agent.Vm.Removal.Spares.{IsUnmanaged}
use compute_agent.Vm.DomainXml.{domain_of}
use compute_agent.Vm.DomainXml.Boot.{get_elem?, boot_of, wanted, domain_of-place}
use compute_agent.Vm.Create.{Makers, create}
use compute_agent.Vm.Create.Keeps.{delete-create-IsUnmanaged}
use compute_agent.Specs.{DiskConfig, VmSpec}
use compute_agent.Models.{desired_running}
use compute_agent.Examples.Data.{web}
use compute_agent.Base.Int.{pos}

-- The domain runs until it was asked to shut down and was looked at once.
abbrev states : List Call → DomainState
states (c ∷ d ∷ e ∷ cs) = is_shutoff ShutoffReason.shutdown
states cs = is_running RunningReason.booted

abbrev libvirt : Host
libvirt = record {
  lookup_error = λ cs. none;
  action_error = λ cs. none;
  state_answer = λ cs. ok (states cs);
  disk_files = λ cs. ok ("/a.img" ∷ []);
  cannot_remove = λ p. false;
  base_name = λ p. p;
  join_path = λ a b. a <> "/" <> b;
}

abbrev machine : Machine
machine = record { calls = []; files = λ p. str_eq p "/a.img"; seeds = [] }

stop-IsStopped_example : IsStopped libvirt "vm" (stop libvirt 5 "vm" machine).1.calls
unfolding stop lookup_domain get_state act
stop-IsStopped_example = stop-IsStopped libvirt "vm" 5 machine refl

short-ne-marker : (d : String) → "/a.img" ≢ marker d
short-ne-marker d e = omega (arith, ap len e, len-append d ".persys-managed")

abbrev disk : String → Bool → DiskConfig
disk path boot = record {
  path = path;
  device = "vda";
  format = "";
  size_gb = pos 10;
  kind = "disk";
  boot = boot;
}

-- It has cloud-init, an old disk and a new one.
abbrev vm_spec : VmSpec
vm_spec = record {
  name = "web";
  vcpus = pos 2;
  memory_mb = pos 512;
  disks = disk "/a.img" false ∷ disk "/b.img" true ∷ [];
  networks = [];
  cloud_init = "#cloud-config";
  metadata = [];
  cloud_init_config = none;
  managed_volumes = [];
}

abbrev makers : Makers
makers = record {
  disks = record {
    parse_url = λ s. none;
    directory = λ p. "/";
    make_directory = λ p. none;
    qemu_img = λ format path size. none;
    write_error = λ p. none;
  };
  seeds = record {
    temp_error = λ id. none;
    write_error = λ name. none;
    has_image_dir = false;
    mkisofs_error = λ p ks. none;
    checksum = λ ks p. "sum";
    join_path = λ a b. a <> "/" <> b;
    clock = 7;
  };
  parse_spec = λ fields. ok vm_spec;
  marshal = λ d. ok d.name;
  define_error = λ xml. none;
}

-- A machine on a disk that was there before, and one on a new disk.
delete-create-IsUnmanaged_example :
    IsUnmanaged "/a.img" (delete libvirt "web" (create makers (web desired_running) machine).1).1
delete-create-IsUnmanaged_example =
    delete-create-IsUnmanaged makers libvirt "/a.img" (web desired_running) short-ne-marker
      (λ e. omega (arith, ap len e))
      ((λ e. omega (arith, ap len e)), ((λ e. omega (arith, ap len e)), tt)) refl
      ((λ e. omega (arith, ap len e)), ((λ e. omega (arith, ap len e)), tt)) machine (refl, refl)

domain_of-place_example :
    (length (domain_of makers.disks "web" vm_spec).devices.disks ≡ 2)
    × (boot_of (get_elem? (domain_of makers.disks "web" vm_spec).devices.disks 1)
        ≡ some (wanted 0 (disk "/b.img" true)))
domain_of-place_example =
    domain_of-place makers.disks "web" vm_spec (disk "/a.img" false ∷ []) [] (disk "/b.img" true)
      refl

-- ===== src/Vm/DomainXml/Boot.antt =====
-- The boot order in the description of a domain (internal/runtime/vm.go, `generateDomainXML`).
use compute_agent.Base.{
  ℕ, zero, suc, ◌+◌, ◌≡◌, refl, ap, ◌∙◌, String, Option, none, some, List, [], ◌∷◌, ◌++◌, length,
  count, decimal, arith, if◌then◌else◌, Bool-cases, inl, inr,
}
use compute_agent.Specs.{DiskConfig, VmSpec}
use compute_agent.Vm.Disks.{Tools}
use compute_agent.Vm.DomainXml.{Disk, disk_of, disks_of, domain_of}

-- The disk at a place.
abbrev pub get_elem? : List Disk → ℕ → Option Disk
get_elem? [] n = none
get_elem? (d ∷ ds) zero = some d
get_elem? (d ∷ ds) (suc n) = get_elem? ds n

-- The device that a disk is on, and its place in the boot order.
abbrev pub boot_of : Option Disk → Option (String × Option String)
boot_of none = none
boot_of (some d) = some (d.target_dev, d.boot_order)

-- How many disks boot.
abbrev pub bootable : List DiskConfig → ℕ
bootable = count (λ d. d.boot)

-- What the configuration of a disk and the number of disks that boot before it come to.
abbrev pub wanted : ℕ → DiskConfig → String × Option String
wanted before d = (d.device, if d.boot then some (decimal (suc before)) else none)

disks_of-place :
    (tools : Tools) (n : ℕ) (before after : List DiskConfig) (d : DiskConfig)
    → boot_of (get_elem? (disks_of tools (suc n) (before ++ d ∷ after)) (length before))
      ≡ some (wanted (n + bootable before) d)
unfolding disks_of disk_of
disks_of-place tools n [] after d = ap (λ (m : ℕ). some (wanted m d)) (omega arith)
disks_of-place tools n (c ∷ before) after d = elim (Bool-cases c.boot) [
  | inl e ↦ rw e (
      disks_of-place tools (suc n) before after d ∙ ap (λ (m : ℕ). some (wanted m d)) (omega arith))
  | inr e ↦ rw e (disks_of-place tools n before after d)
]

length-disks_of :
    (tools : Tools) (n : ℕ) (ds : List DiskConfig) → length (disks_of tools n ds) ≡ length ds
unfolding disks_of
length-disks_of tools n [] = refl
length-disks_of tools n (d ∷ ds) = ap suc (length-disks_of tools (if d.boot then suc n else n) ds)

-- The domain has as many disks as the specification, and each at its place: on the device that its
-- configuration names, with one more than the number of disks before it that boot as its place in
-- the boot order if it boots, and without one otherwise.
pub domain_of-place :
    (tools : Tools) (name : String) (s : VmSpec) (before after : List DiskConfig) (d : DiskConfig)
    → s.disks ≡ before ++ d ∷ after
    → (length (domain_of tools name s).devices.disks ≡ length s.disks)
      × (boot_of (get_elem? (domain_of tools name s).devices.disks (length before))
          ≡ some (wanted (bootable before) d))
unfolding domain_of
domain_of-place tools name s before after d e = (
  length-disks_of tools 1 s.disks,
  rw e (disks_of-place tools 0 before after d ∙ ap (λ (m : ℕ). some (wanted m d)) (omega arith)),
)

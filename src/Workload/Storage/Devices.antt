-- ===== src/Workload/Storage/Devices.antt =====
-- internal/workload/manager.go, `nextVMManagedDiskDevice`: the device of the next managed disk.
use compute_agent.Base.{
  ◌%◌, String, ◌<>◌, ◌≡◌, ◌⊎◌, inl, inr, refl, Bool, true, false, not, ◌&&◌, Option, none, some,
  List, [], ◌∷◌, codes, lower_codes, trim_space, is_blank, decimal, if◌then◌else◌, any, arith,
}
use compute_agent.Models.{Time}
use compute_agent.Specs.{DiskConfig}
use compute_agent.Workload.Status.{same_codes}

-- `vdb` to `vdz`.
abbrev pub candidates : List String
candidates =
    "vdb" ∷ "vdc" ∷ "vdd" ∷ "vde" ∷ "vdf" ∷ "vdg" ∷ "vdh" ∷ "vdi" ∷ "vdj" ∷ "vdk" ∷ "vdl" ∷ "vdm"
    ∷ "vdn" ∷ "vdo" ∷ "vdp" ∷ "vdq" ∷ "vdr" ∷ "vds" ∷ "vdt" ∷ "vdu" ∷ "vdv" ∷ "vdw" ∷ "vdx" ∷ "vdy"
    ∷ "vdz" ∷ []

-- Whether a disk has this device, cases of letters and outer spaces aside; a blank device is none.
pub uses : String → DiskConfig → Bool
unfolding same_codes lower_codes
uses device disk =
    not (is_blank (trim_space disk.device))
    && same_codes (lower_codes (trim_space disk.device)) (codes device)

first_free : List DiskConfig → List String → Option String
unfolding uses
first_free disks [] = none
first_free disks (c ∷ cs) =
    let rest = first_free disks cs in if any (uses c) disks then rest else some c

-- With all candidates taken the name is made of the time.
or_by_time : Option String → Time → String
or_by_time none t = "vdx" <> decimal (t % 10000)
or_by_time (some d) t = d

-- `t` is the reading of the clock that is made if no candidate is free.
unfoldable pub next_vm_managed_disk_device : List DiskConfig → Time → String
unfolding first_free or_by_time
next_vm_managed_disk_device disks t = or_by_time (first_free disks candidates) t

-- All of some devices are in use.
abbrev pub all_used : List DiskConfig → List String → Bool
all_used disks [] = true
all_used disks (c ∷ cs) = any (uses c) disks && all_used disks cs

first_free-uses :
    (disks : List DiskConfig) (cs : List String) (d : String)
    → first_free disks cs ≡ some d
    → any (uses d) disks ≡ false
unfolding first_free
first_free-uses disks [] d e = ground arith
first_free-uses disks (c ∷ cs) d e = ground (arith, first_free-uses disks cs d)

first_free-none :
    (disks : List DiskConfig) (cs : List String)
    → first_free disks cs ≡ none
    → all_used disks cs ≡ true
unfolding first_free
first_free-none disks [] e = refl
first_free-none disks (c ∷ cs) e = ground (arith, first_free-none disks cs)

-- No disk of the machine has the device that is chosen, unless all of `vdb` to `vdz` are in use.
pub next_vm_managed_disk_device-free :
    (disks : List DiskConfig) (t : Time)
    → (any (uses (next_vm_managed_disk_device disks t)) disks ≡ false)
      ⊎ (all_used disks candidates ≡ true)
unfolding next_vm_managed_disk_device
next_vm_managed_disk_device-free disks t = go (first_free disks candidates) refl
  where
    go :
        (o : Option String)
        → first_free disks candidates ≡ o
        → (any (uses (or_by_time o t)) disks ≡ false) ⊎ (all_used disks candidates ≡ true)
    go none e = inr (first_free-none disks candidates e)
    go (some d) e = inl (first_free-uses disks candidates d e)

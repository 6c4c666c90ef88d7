-- ===== src/Vm/Seed/Keeps.antt =====
-- Which files making the image of a machine leaves alone (internal/runtime/vm.go,
-- `createCloudInitISO`).
use compute_agent.Base.{◌≡◌, ◌≢◌, inl, inr, refl, String, Option, none, some, Bool-cases}
use compute_agent.Specs.{VmSpec}
use compute_agent.Vm.{Machine}
use compute_agent.Vm.Disks.Keeps.{add_file-IsUnmanaged}
use compute_agent.Vm.Removal.{marker}
use compute_agent.Vm.Removal.Spares.{IsUnmanaged}
use compute_agent.Vm.Seed.{
  SeedTools, Payload, Seeded, create_seed, iso_path, payload_of, payload_error, wants_seed, in_temp,
  checked, image_made, file_keys, seeded,
}

-- A cloud-init image is where the runtime puts it.
abbrev pub IsPlaced : SeedTools → String → Seeded → Type 0
IsPlaced tools id Seeded.no_seed = Unit
IsPlaced tools id (seeded i) = i.path ≡ iso_path tools id
IsPlaced tools id (Seeded.seed_error e) = Unit

module _ (p : String) (no_marker : (d : String) → p ≢ marker d) (tools : SeedTools) (id : String)
    (not_marker : iso_path tools id ≢ marker p) where
  image-IsUnmanaged :
      (l : Payload) (e : Option String) (m : Machine)
      → IsUnmanaged p m
      → IsUnmanaged p (image_made tools id l e m).1
  image-IsUnmanaged l (some e) m k = k
  image-IsUnmanaged l none m k = add_file-IsUnmanaged p no_marker (iso_path tools id) m not_marker k

  checked-IsUnmanaged :
      (l : Payload) (e : Option String) (m : Machine)
      → IsUnmanaged p m
      → IsUnmanaged p (checked tools id l e m).1
  checked-IsUnmanaged l (some e) m k = k
  checked-IsUnmanaged l none m k =
      image-IsUnmanaged l (tools.mkisofs_error (iso_path tools id) (file_keys l)) m k

  in_temp-IsUnmanaged :
      (l : Payload) (e : Option String) (m : Machine)
      → IsUnmanaged p m
      → IsUnmanaged p (in_temp tools id l e m).1
  in_temp-IsUnmanaged l (some e) m k = k
  in_temp-IsUnmanaged l none m k = checked-IsUnmanaged l (payload_error tools l) m k

  pub create_seed-IsUnmanaged :
      (s : VmSpec) (m : Machine) → IsUnmanaged p m → IsUnmanaged p (create_seed tools id s m).1
  unfolding create_seed
  create_seed-IsUnmanaged s m k = elim (Bool-cases (wants_seed s)) [
    | inl e ↦ rw e (in_temp-IsUnmanaged (payload_of id s) (tools.temp_error id) m k)
    | inr e ↦ rw e k
  ]

module _ (tools : SeedTools) (id : String) where
  image-IsPlaced :
      (l : Payload) (e : Option String) (m : Machine)
      → IsPlaced tools id (image_made tools id l e m).0
  image-IsPlaced l (some e) m = tt
  image-IsPlaced l none m = refl

  checked-IsPlaced :
      (l : Payload) (e : Option String) (m : Machine) → IsPlaced tools id (checked tools id l e m).0
  checked-IsPlaced l (some e) m = tt
  checked-IsPlaced l none m =
      image-IsPlaced l (tools.mkisofs_error (iso_path tools id) (file_keys l)) m

  in_temp-IsPlaced :
      (l : Payload) (e : Option String) (m : Machine) → IsPlaced tools id (in_temp tools id l e m).0
  in_temp-IsPlaced l (some e) m = tt
  in_temp-IsPlaced l none m = checked-IsPlaced l (payload_error tools l) m

  pub create_seed-IsPlaced :
      (s : VmSpec) (m : Machine) → IsPlaced tools id (create_seed tools id s m).0
  unfolding create_seed
  create_seed-IsPlaced s m = elim (Bool-cases (wants_seed s)) [
    | inl e ↦ rw e (in_temp-IsPlaced (payload_of id s) (tools.temp_error id) m)
    | inr e ↦ rw e tt
  ]

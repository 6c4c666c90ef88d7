-- ===== src/Vm/Create/Keeps.antt =====
-- Which files the runtime of internal/runtime/vm.go leaves alone over the life of a machine.
use compute_agent.Base.{
  ◌≡◌, ◌≢◌, inl, inr, String, false, Option, none, some, List, [], ◌∷◌, ◌++◌, All, is_blank,
  Bool-cases,
}
use compute_agent.Errors.{Result, ok, err}
use compute_agent.Models.{Workload}
use compute_agent.Specs.{DiskConfig, VmSpec}
use compute_agent.Vm.{Host, Machine}
use compute_agent.Vm.Disks.{create_disks}
use compute_agent.Vm.Disks.Keeps.{create_disks-IsUnmanaged}
use compute_agent.Vm.Seed.{Seeded, no_seed, seeded, seed_error, create_seed, iso_path}
use compute_agent.Vm.Seed.Keeps.{create_seed-IsUnmanaged, IsPlaced, create_seed-IsPlaced}
use compute_agent.Vm.Removal.{marker, is_iso_of, expected_isos, delete}
use compute_agent.Vm.Removal.Spares.{IsUnmanaged, delete-IsUnmanaged}
use compute_agent.Vm.Create.{
  Makers, with_cdrom, set_seed, clear_seed, cdrom, define, create_from, with_seed, has_cloud_init,
  create_parsed, create,
}

-- The paths of a specification's disks are not the marker of the file.
abbrev pub IsClear : String → Result VmSpec → Type 0
IsClear p (err e) = Unit
IsClear p (ok s) = All (λ (d : DiskConfig). d.path ≢ marker p) s.disks

module _ (makers : Makers) (p : String) (no_marker : (d : String) → p ≢ marker d) where
  define-IsUnmanaged :
      (id : String) (s : VmSpec) (e : Option String) (m : Machine)
      → IsUnmanaged p m
      → IsUnmanaged p (define makers id s e m).1
  unfolding define
  define-IsUnmanaged id s (some e) m k = k
  define-IsUnmanaged id s none m k = k

  create_from-IsUnmanaged :
      (id : String) (s : VmSpec) (m : Machine)
      → All (λ (d : DiskConfig). d.path ≢ marker p) s.disks
      → IsUnmanaged p m
      → IsUnmanaged p (create_from makers id s m).1
  unfolding create_from
  create_from-IsUnmanaged id s m h k =
      let r = create_disks makers.disks s.disks m in
      define-IsUnmanaged id s r.0 r.1
        (create_disks-IsUnmanaged p no_marker makers.disks s.disks m h k)

All-snoc :
    (p : String) (ds : List DiskConfig) (d : DiskConfig)
    → All (λ (d : DiskConfig). d.path ≢ marker p) ds
    → d.path ≢ marker p
    → All (λ (d : DiskConfig). d.path ≢ marker p) (ds ++ d ∷ [])
All-snoc p [] d h g = (g, tt)
All-snoc p (x ∷ ds) d h g = (h.0, All-snoc p ds d h.1 g)

module _ (makers : Makers) (p : String) (no_marker : (d : String) → p ≢ marker d) (id : String)
    (not_marker : iso_path makers.seeds id ≢ marker p) where
  with_cdrom-IsClear :
      (s : VmSpec) (path : String)
      → IsClear p (ok s)
      → path ≡ iso_path makers.seeds id
      → IsClear p (ok (with_cdrom s path))
  with_cdrom-IsClear s path h e = elim (Bool-cases (is_blank path)) [
    | inl b ↦ rw b h
    | inr b ↦ rw b (All-snoc p s.disks (cdrom path) h (rw e not_marker))
  ]

  with_seed-IsUnmanaged :
      (s : VmSpec) (r : Seeded) (m : Machine)
      → IsPlaced makers.seeds id r
      → IsClear p (ok s)
      → IsUnmanaged p m
      → IsUnmanaged p (with_seed makers id s r m).1
  unfolding with_seed
  with_seed-IsUnmanaged s (seed_error e) m q h k = k
  with_seed-IsUnmanaged s no_seed m q h k = create_from-IsUnmanaged makers p no_marker id s m h k
  with_seed-IsUnmanaged s (seeded info) m q h k =
      create_from-IsUnmanaged makers p no_marker id (with_cdrom s info.path) (set_seed id info m).1
        (with_cdrom-IsClear s info.path h q) k

  create_parsed-IsUnmanaged :
      (r : Result VmSpec) (m : Machine)
      → IsClear p r
      → IsUnmanaged p m
      → IsUnmanaged p (create_parsed makers id r m).1
  unfolding create_parsed
  create_parsed-IsUnmanaged (err e) m h k = k
  create_parsed-IsUnmanaged (ok s) m h k = elim (Bool-cases (has_cloud_init makers s)) [
    | inl e ↦
        let seed = create_seed makers.seeds id s m in
        rw e (
          with_seed-IsUnmanaged s seed.0 seed.1 (create_seed-IsPlaced makers.seeds id s m) h
            (create_seed-IsUnmanaged p no_marker makers.seeds id not_marker s m k))
    | inr e ↦ rw e (create_from-IsUnmanaged makers p no_marker id s (clear_seed id m).1 h k)
  ]

module _ (makers : Makers) (host : Host) (p : String) (w : Workload)
    (no_marker : (d : String) → p ≢ marker d) (not_marker : iso_path makers.seeds w.id ≢ marker p)
    (clear : IsClear p (makers.parse_spec w.spec)) (other : is_iso_of host w.id p ≡ false)
    (not_iso : All (λ q. p ≢ q) (expected_isos host w.id)) where
  -- Whatever the system and libvirt answer, a file that was there before a machine was created is
  -- still there, still without a marker, after the machine was created and removed, even where it
  -- is a disk of the machine. It must be no marker itself, bear none before, and be no cloud-init
  -- image of the machine, and neither a path of the specification's disks nor the path of the
  -- machine's image may be its marker.
  pub delete-create-IsUnmanaged :
      (m : Machine) → IsUnmanaged p m → IsUnmanaged p (delete host w.id (create makers w m).1).1
  unfolding create
  delete-create-IsUnmanaged m k =
      delete-IsUnmanaged host w.id p other no_marker not_iso (create makers w m).1 (
        create_parsed-IsUnmanaged makers p no_marker w.id not_marker (makers.parse_spec w.spec) m
          clear k)

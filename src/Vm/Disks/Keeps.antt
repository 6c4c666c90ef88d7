-- ===== src/Vm/Disks/Keeps.antt =====
-- Which files making the disks of a machine leaves alone (internal/runtime/vm.go, `createDisk`).
use text.Mathlib.TextLemmas.{append_cancel_right}
use compute_agent.Base.{
  ◌≡◌, ◌≢◌, inl, inr, ap, String, false, Option, none, some, List, [], ◌∷◌, All, eq_iff, arith,
  Bool-cases,
}
use compute_agent.Specs.{DiskConfig}
use compute_agent.Vm.{Machine, V}
use compute_agent.Vm.Disks.{
  Tools, add_file, or_qcow2, mark, image_made, disk_in, create_disk, is_made, create_disks,
  next_disk,
}
use compute_agent.Vm.Removal.{marker}
use compute_agent.Vm.Removal.Spares.{IsUnmanaged}

module _ (p : String) (no_marker : (d : String) → p ≢ marker d) where
  abbrev Keeps {ℓ} : {A : Type ℓ} → V A → Type 0
  Keeps f = (m : Machine) → IsUnmanaged p m → IsUnmanaged p (f m).1

  -- Only the marker of the file itself is not to be added.
  pub add_file-IsUnmanaged :
      (q : String) (m : Machine) → q ≢ marker p → IsUnmanaged p m → IsUnmanaged p (add_file q m)
  add_file-IsUnmanaged q m h k = ground (arith, eq_iff p q, eq_iff (marker p) q)

  marker-ne : (d : String) → d ≢ p → marker d ≢ marker p
  marker-ne d h e = h (append_cancel_right d p ".persys-managed" e)

  module _ (tools : Tools) where
    mark-IsUnmanaged :
        (d : String) (m : Machine) → d ≢ p → IsUnmanaged p m → IsUnmanaged p (mark tools d m)
    mark-IsUnmanaged d m h k = ground (arith, add_file-IsUnmanaged (marker d) m (marker-ne d h) k)

    new-ne : (d : String) (m : Machine) → IsUnmanaged p m → m.files d ≡ false → d ≢ p
    new-ne d m k h e = ground (arith, ap (λ (x : String). m.files x) e)

    image-IsUnmanaged :
        (d : DiskConfig) (e : Option String) (m : Machine)
        → d.path ≢ p
        → d.path ≢ marker p
        → IsUnmanaged p m
        → IsUnmanaged p (image_made tools d e m).1
    unfolding image_made
    image-IsUnmanaged d (some e) m h g k = k
    image-IsUnmanaged d none m h g k =
        mark-IsUnmanaged d.path (add_file d.path m) h (add_file-IsUnmanaged d.path m g k)

    disk-IsUnmanaged :
        (d : DiskConfig) (e : Option String) (m : Machine)
        → d.path ≢ marker p
        → IsUnmanaged p m
        → IsUnmanaged p (disk_in tools d e m).1
    unfolding disk_in
    disk-IsUnmanaged d (some e) m g k = k
    disk-IsUnmanaged d none m g k = elim (Bool-cases (m.files d.path)) [
      | inl old ↦ rw old k
      | inr new ↦ rw new (
          image-IsUnmanaged d (tools.qemu_img (or_qcow2 d.format) d.path d.size_gb) m
            (new-ne d.path m k new) g k)
    ]

    made-IsUnmanaged :
        (d : DiskConfig) (rest : V (Option String)) (e : Option String) (m : Machine)
        → (IsUnmanaged p (rest m).1)
        → IsUnmanaged p m
        → IsUnmanaged p (next_disk tools d rest e m).1
    unfolding next_disk
    made-IsUnmanaged d rest none m r k = r
    made-IsUnmanaged d rest (some e) m r k = k

    pub create_disks-IsUnmanaged :
        (ds : List DiskConfig) (m : Machine)
        → All (λ d. d.path ≢ marker p) ds
        → IsUnmanaged p m
        → IsUnmanaged p (create_disks tools ds m).1
    unfolding create_disks create_disk
    create_disks-IsUnmanaged [] m h k = k
    create_disks-IsUnmanaged (d ∷ ds) m h k = elim (Bool-cases (is_made tools d)) [
      | inl e ↦
          let r = create_disk tools d m in
          let k' = disk-IsUnmanaged d (tools.make_directory (tools.directory d.path)) m h.0 k in
          rw e (
            made-IsUnmanaged d (create_disks tools ds) r.0 r.1
              (create_disks-IsUnmanaged ds r.1 h.1 k') k')
      | inr e ↦ rw e (create_disks-IsUnmanaged ds m h.1 k)
    ]

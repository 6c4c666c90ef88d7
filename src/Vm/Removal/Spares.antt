-- ===== src/Vm/Removal/Spares.antt =====
-- Which files `Delete` of internal/runtime/vm.go leaves alone.
use compute_agent.Base.{
  ◌≡◌, ◌≢◌, inl, inr, ap, String, true, false, ◌||◌, Option, none, some, List, [], ◌∷◌, All, eq_iff,
  arith, Bool-cases,
}
use compute_agent.Errors.{Result}
use compute_agent.Vm.{
  destroys, undefines, Host, Machine, V, Lookup, present, absent, unknown, act, get_state,
  get_disk_files, lookup_domain, remove_file,
}
use compute_agent.Vm.States.{DomainState}
use compute_agent.Vm.Removal.{
  marker, is_iso_of, expected_isos, remove_all, clean_isos, remove_disk, clean_disk, clean_disks,
  clean_up, undefined, undefine, after_destroy, must_destroy, switch_off, delete_found, delete,
  counts,
}

-- A file that exists and bears no marker.
abbrev pub IsUnmanaged : String → Machine → Type 0
IsUnmanaged p m = (m.files p ≡ true) × (m.files (marker p) ≡ false)

module _ (host : Host) (id p : String) where
  abbrev Keeps {ℓ} : {A : Type ℓ} → V A → Type 0
  Keeps f = (m : Machine) → IsUnmanaged p m → IsUnmanaged p (f m).1

  remove_file-IsUnmanaged : (q : String) → p ≢ q → Keeps (remove_file host q)
  unfolding remove_file
  remove_file-IsUnmanaged q h m k = ground (arith, eq_iff p q)

  remove_all-IsUnmanaged : (qs : List String) → All (λ q. p ≢ q) qs → Keeps (remove_all host qs)
  unfolding remove_all
  remove_all-IsUnmanaged [] h m k = k
  remove_all-IsUnmanaged (q ∷ qs) h m k =
      remove_all-IsUnmanaged qs h.1 (remove_file host q m).1 (remove_file-IsUnmanaged q h.0 m k)

  module _ (other : is_iso_of host id p ≡ false) (no_marker : (d : String) → p ≢ marker d) where
    remove_disk-IsUnmanaged : (d : String) → p ≢ d → Keeps (remove_disk host d)
    unfolding remove_disk
    remove_disk-IsUnmanaged d h m k =
        let r = remove_file host d m in
        let k' = remove_file-IsUnmanaged d h m k in
        elim (Bool-cases r.0) [
          | inl e ↦ rw e (remove_file-IsUnmanaged (marker d) (no_marker d) r.1 k')
          | inr e ↦ rw e k'
        ]

    -- A disk that goes is not the file.
    goes-ne :
        (d : String) (m : Machine)
        → IsUnmanaged p m
        → (is_iso_of host id d || m.files (marker d)) ≡ true
        → p ≢ d
    goes-ne d m k h same = ground (
      arith,
      ap (λ (x : String). is_iso_of host id x) same,
      ap (λ (x : String). m.files (marker x)) same,
    )

    clean_disk-IsUnmanaged : (d : String) → Keeps (clean_disk host id d)
    unfolding clean_disk
    clean_disk-IsUnmanaged d m k = elim (Bool-cases (is_iso_of host id d || m.files (marker d))) [
      | inl e ↦ rw e (remove_disk-IsUnmanaged d (goes-ne d m k e) m k)
      | inr e ↦ rw e k
    ]

    clean_disks-IsUnmanaged : (ds : List String) → Keeps (clean_disks host id ds)
    unfolding clean_disks
    clean_disks-IsUnmanaged [] m k = k
    clean_disks-IsUnmanaged (d ∷ ds) m k =
        clean_disks-IsUnmanaged ds (clean_disk host id d m).1 (clean_disk-IsUnmanaged d m k)

    module _ (not_iso : All (λ q. p ≢ q) (expected_isos host id)) where
      clean_up-IsUnmanaged : (ds : List String) → Keeps (clean_up host id ds)
      unfolding clean_up clean_isos
      clean_up-IsUnmanaged ds m k =
          remove_all-IsUnmanaged (expected_isos host id) not_iso (clean_disks host id ds m).1
            (clean_disks-IsUnmanaged ds m k)

      undefined-IsUnmanaged :
          (ds : List String) (e : Option String) → Keeps (undefined host id ds e)
      unfolding undefined
      undefined-IsUnmanaged ds none m k = clean_up-IsUnmanaged ds m k
      undefined-IsUnmanaged ds (some e) m k = k

      undefine-IsUnmanaged : (ds : List String) → Keeps (undefine host id ds)
      unfolding undefine act
      undefine-IsUnmanaged ds m k =
          let cs = undefines id ∷ m.calls in
          undefined-IsUnmanaged ds (counts "failed to undefine domain" (host.action_error cs))
            (record m { calls = cs }) k

      after_destroy-IsUnmanaged :
          (ds : List String) (e : Option String) → Keeps (after_destroy host id ds e)
      unfolding after_destroy
      after_destroy-IsUnmanaged ds none m k = undefine-IsUnmanaged ds m k
      after_destroy-IsUnmanaged ds (some e) m k = k

      switch_off-IsUnmanaged :
          (ds : List String) (s : Result DomainState) → Keeps (switch_off host id ds s)
      unfolding switch_off act
      switch_off-IsUnmanaged ds s m k = elim (Bool-cases (must_destroy host s)) [
        | inl e ↦
            let cs = destroys id ∷ m.calls in
            rw e (
              after_destroy-IsUnmanaged ds
                (counts "failed to destroy domain before undefine" (host.action_error cs))
                (record m { calls = cs }) k)
        | inr e ↦ rw e (undefine-IsUnmanaged ds m k)
      ]

      delete_found-IsUnmanaged : (l : Lookup) → Keeps (delete_found host id l)
      unfolding delete_found clean_isos get_disk_files get_state
      delete_found-IsUnmanaged present m k =
          let files = get_disk_files host id m in
          let state = get_state host id files.1 in switch_off-IsUnmanaged files.0 state.0 state.1 k
      delete_found-IsUnmanaged absent m k =
          remove_all-IsUnmanaged (expected_isos host id) not_iso m k
      delete_found-IsUnmanaged (unknown e) m k = k

      -- Whatever libvirt answers, removing a machine leaves a file alone that is not named as the
      -- machine's cloud-init image, is none of the two images expected for it, bears no marker of a
      -- managed disk and is itself no marker; it still bears none.
      pub delete-IsUnmanaged : (m : Machine) → IsUnmanaged p m → IsUnmanaged p (delete host id m).1
      unfolding delete lookup_domain
      delete-IsUnmanaged m k = let l = lookup_domain host id m in delete_found-IsUnmanaged l.0 l.1 k

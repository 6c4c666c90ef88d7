-- ===== src/Vm/Removal.antt =====
-- internal/runtime/vm.go, lines 246 to 290, 918 to 927 and 959 to 991: removing a domain and its
-- files.
pub mod Spares
use compute_agent.Base.{
  String, ◌<>◌, Bool, true, false, not, ◌&&◌, ◌||◌, Option, none, some, List, [], ◌∷◌, str_eq,
  if◌then◌else◌,
}
use compute_agent.Base.Dict
use compute_agent.Errors.{Err, Result, ok, err}
use compute_agent.Vm.{
  destroys, undefines, Host, Machine, V, pure, ◌>>=◌, ◌>>◌, is_domain_not_found, Lookup, present,
  absent, unknown, act, get_state, get_disk_files, lookup_domain, remove_file,
}
use compute_agent.Vm.States.{DomainState, is_off}

-- `managedDiskMarkerPath`
abbrev pub marker : String → String
marker p = p <> ".persys-managed"

abbrev pub iso_name : String → String
iso_name id = id <> "-cloud-init.iso"

abbrev pub counts : String → Option String → Option String
counts message none = none
counts message (some e) = if is_domain_not_found e then none else some (message <> ": " <> e)

module _ (host : Host) where
  -- `isCloudInitISOForVM`
  abbrev pub is_iso_of : String → String → Bool
  is_iso_of id p = str_eq (host.base_name p) (iso_name id)

  -- `expectedCloudInitISOPaths`
  abbrev pub expected_isos : String → List String
  expected_isos id =
      host.join_path "/var/lib/libvirt/images" (iso_name id)
      ∷ host.join_path "/tmp" (iso_name id)
      ∷ []

  -- The loop of `cleanupDeterministicVMArtifacts`
  remove_all : List String → V (Unit {0})
  remove_all [] = pure tt
  remove_all (p ∷ ps) = do remove_file host p; remove_all ps

  unfoldable pub clean_isos : String → V (Unit {0})
  unfolding remove_all
  clean_isos id = remove_all (expected_isos id)

  remove_disk : String → V (Unit {0})
  remove_disk p = do
    gone ← remove_file host p
    if gone then (do remove_file host (marker p); pure tt) else pure tt

  -- One turn of `cleanupDiskArtifacts`: only the machine's own image and marked disks go.
  clean_disk : String → String → V (Unit {0})
  unfolding remove_disk
  clean_disk id p m = if is_iso_of id p || m.files (marker p) then remove_disk p m else (tt, m)

  -- `cleanupDiskArtifacts`
  unfoldable pub clean_disks : String → List String → V (Unit {0})
  unfolding clean_disk
  clean_disks id [] = pure tt
  clean_disks id (p ∷ ps) = do clean_disk id p; clean_disks id ps

  -- `clearSeedInfo`
  abbrev pub clear_seed : String → V (Unit {0})
  clear_seed id m = (tt, record m { seeds = Dict.remove id m.seeds })

  -- After the domain is undefined.
  clean_up : String → List String → V (Option String)
  unfolding clean_disks clean_isos
  clean_up id disks = do clean_disks id disks; clean_isos id; clear_seed id; pure none

  undefined : String → List String → Option String → V (Option String)
  unfolding clean_up
  undefined id disks none = clean_up id disks
  undefined id disks (some e) = pure (some e)

  undefine : String → List String → V (Option String)
  unfolding undefined
  undefine id disks = do
    e ← act host (undefines id)
    undefined id disks (counts "failed to undefine domain" e)

  after_destroy : String → List String → Option String → V (Option String)
  unfolding undefine
  after_destroy id disks none = undefine id disks
  after_destroy id disks (some e) = pure (some e)

  -- Whether the domain is forced off first; an unknown state does not count.
  abbrev pub must_destroy : Result DomainState → Bool
  must_destroy (err e) = false
  must_destroy (ok s) = not (is_off s)

  switch_off : String → List String → Result DomainState → V (Option String)
  unfolding after_destroy undefine
  switch_off id disks s =
      if must_destroy s
      then (do
        e ← act host (destroys id)
        after_destroy id disks (counts "failed to destroy domain before undefine" e))
      else undefine id disks

  delete_found : String → Lookup → V (Option String)
  unfolding switch_off clean_isos
  delete_found id (unknown e) = pure (some e)
  delete_found id absent = do clean_isos id; pure none
  delete_found id present = do
    disks ← get_disk_files host id
    s ← get_state host id
    switch_off id disks s

  -- `Delete`; the result is the error
  unfoldable pub delete : String → V (Option String)
  unfolding delete_found
  delete id = do l ← lookup_domain host id; delete_found id l

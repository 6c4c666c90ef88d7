-- ===== src/Providers/Local/Root.antt =====
-- What `Delete` of internal/storage/providers/local_provider.go can remove.
use compute_agent.Base.{
  ◌≡◌, refl, inl, inr, ◌⊎◌, String, false, none, List, ◌∷◌, is_blank, trim_space, Bool-cases,
  eq_refl,
}
use compute_agent.Errors.{Result, ok, err}
use compute_agent.Volumes.{VolumeSpec, VolumeHandle}
use compute_agent.Providers.{
  DirCall, makes, removes, System, act, normalize_volume_name, safe_join, escapes,
}
use compute_agent.Providers.Local.{LocalProvider, provision, delete, delete_at, handle}

-- A path that a relative path which does not leave the base leads to.
abbrev pub IsWithin : System → String → String → Type 0
IsWithin sys base path = (rel : String) × (path ≡ sys.join base rel) × (escapes sys rel ≡ false)

-- Nothing was asked for, or one removal within the base.
abbrev pub RemovesWithin : System → String → List DirCall → List DirCall → Type 0
RemovesWithin sys base cs cs' =
    (cs' ≡ cs) ⊎ ((path : String) × (cs' ≡ removes path ∷ cs) × IsWithin sys base path)

module _ (sys : System) where
  delete_at-RemovesWithin :
      (base path : String) (rel : Result String) (cs : List DirCall)
      → RemovesWithin sys base cs (delete_at sys base path rel cs).1
  unfolding act
  delete_at-RemovesWithin base path (err e) cs = inl refl
  delete_at-RemovesWithin base path (ok rel) cs = elim (Bool-cases (escapes sys rel)) [
    | inl e ↦ rw e (inl refl)
    | inr e ↦ rw e (inr (sys.join base rel, refl, (rel, refl, e)))
  ]

  -- Whatever handle it is given, the deletion of a local volume removes nothing, or one path that a
  -- relative path leads to from the root of the local volumes, one that does not begin with two
  -- dots.
  pub delete-RemovesWithin :
      (p : LocalProvider) (h : VolumeHandle) (cs : List DirCall)
      → RemovesWithin sys (sys.clean p.base_path) cs (delete sys p h cs).1
  unfolding delete
  delete-RemovesWithin p h cs = elim (Bool-cases (is_blank (trim_space h.device))) [
    | inl e ↦ rw e (inl refl)
    | inr e ↦ rw e (
        delete_at-RemovesWithin (sys.clean p.base_path) (sys.clean h.device)
          (sys.rel (sys.clean p.base_path) (sys.clean h.device)) cs)
  ]

  -- Where the name of a volume, such as a dot, leads from the root of the local volumes to that root
  -- itself, the volume is provisioned, and its deletion removes the root with all other volumes in
  -- it. The paths behave as Go's: the root is clean, from it to itself leads a path that joined to
  -- it gives it and does not begin with two dots; and the directory can be made.
  pub delete-provision-root :
      (p : LocalProvider) (spec : VolumeSpec) (name dot : String) (cs later : List DirCall)
      → is_blank (trim_space p.base_path) ≡ false
      → normalize_volume_name sys spec.name ≡ ok name
      → sys.clean p.base_path ≡ p.base_path
      → sys.clean (sys.join p.base_path name) ≡ p.base_path
      → sys.rel p.base_path p.base_path ≡ ok dot
      → escapes sys dot ≡ false
      → sys.join p.base_path dot ≡ p.base_path
      → sys.dir_error (makes p.base_path ∷ cs) ≡ none
      → ((provision sys p spec cs).0 ≡ ok (handle sys spec name p.base_path))
        × ((delete sys p (handle sys spec name p.base_path) later).1 ≡ removes p.base_path ∷ later)
  unfolding provision delete safe_join act
  delete-provision-root p spec name dot cs later b n c j r s k d =
      (rw (n, b, c, j, eq_refl p.base_path, d) refl, rw (b, c, r, s, k) refl)

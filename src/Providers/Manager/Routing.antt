-- ===== src/Providers/Manager/Routing.antt =====
-- Which provider the volume manager of internal/platform/storage.go asks to end what one began.
use compute_agent.Base.{
  ◌≡◌, refl, sym, ap, subst, ◌∙◌, inl, inr, String, Bool, Option, none, some, List, [], ◌∷◌, str_eq,
  eq_iff, is_blank, trim_space, arith, if◌then◌else◌, Bool-cases,
}
use compute_agent.Base.Dict
use compute_agent.Base.Dict.{Dict}
use compute_agent.Errors.{Err, Result, ok, err}
use compute_agent.Volumes.{VolumeSpec, VolumeHandle, VolumeAttachment}
use compute_agent.Providers.{
  DirCall, System, S, pure, normalize_volume_name, safe_join, replace_char, act, makes,
}
use compute_agent.Providers.Local
use compute_agent.Providers.Local.{LocalProvider}
use compute_agent.Providers.Remote.{
  attach_at, staged, stage_made, nfs_metadata, ceph_metadata, attach_staged, provision_nfs,
  provision_ceph, nfs_named, ceph_named,
}
use compute_agent.Providers.Manager.{
  Provider, local, nfs, ceph_rbd, driver, validate, if_valid, provision, attach, detach, delete,
  normalize_driver, Registry, register_storage_provider, or_empty, attachment_driver, registered,
  resolve_provider, provision_with, attach_with, provision_volume, attach_volume, detach_volume,
  delete_volume,
}

-- Each provider is found under its driver.
abbrev pub IsKeyed : Registry → Type 0
IsKeyed [] = Unit
IsKeyed ((k, p) ∷ r) = (k ≡ normalize_driver (driver p)) × IsKeyed r

-- What the registrations make of an empty registry, the newest first.
unfoldable pub registry_of : List (Option Provider) → Registry
registry_of [] = []
registry_of (p ∷ ps) = register_storage_provider p (registry_of ps)

put-IsKeyed :
    (p : Provider) (r : Registry) → IsKeyed r → IsKeyed (Dict.put (normalize_driver (driver p)) p r)
unfolding Dict.put
put-IsKeyed p [] h = (refl, tt)
put-IsKeyed p ((k, q) ∷ r) h = elim (Bool-cases (str_eq k (normalize_driver (driver p)))) [
  | inl e ↦ rw e (refl, h.1)
  | inr e ↦ rw e (h.0, put-IsKeyed p r h.1)
]

register-IsKeyed :
    (p : Option Provider) (r : Registry) → IsKeyed r → IsKeyed (register_storage_provider p r)
unfolding register_storage_provider
register-IsKeyed none r h = h
register-IsKeyed (some p) r h = elim (Bool-cases (is_blank (normalize_driver (driver p)))) [
  | inl e ↦ rw e h
  | inr e ↦ rw e (put-IsKeyed p r h)
]

registry_of-IsKeyed : (ps : List (Option Provider)) → IsKeyed (registry_of ps)
unfolding registry_of
registry_of-IsKeyed [] = tt
registry_of-IsKeyed (p ∷ ps) = register-IsKeyed p (registry_of ps) (registry_of-IsKeyed ps)

abbrev some_or : Provider → Option Provider → Provider
some_or p none = p
some_or p (some q) = q

get-IsKeyed :
    (d : String) (p : Provider) (r : Registry)
    → IsKeyed r
    → Dict.get d r ≡ some p
    → d ≡ normalize_driver (driver p)
unfolding Dict.get
get-IsKeyed d p [] h g = ground arith
get-IsKeyed d p ((k, q) ∷ r) h g = elim (Bool-cases (str_eq k d)) [
  | inl e ↦
      let same = subst (λ b. (if b then some q else Dict.get d r) ≡ some p) e g in
      sym ((eq_iff k d).0 e) ∙ h.0 ∙ ap (λ x. normalize_driver (driver x)) (ap (some_or q) same)
  | inr e ↦ get-IsKeyed d p r h.1 (subst (λ b. (if b then some q else Dict.get d r) ≡ some p) e g)
]

abbrev provider_or : Provider → Result Provider → Provider
provider_or p (ok q) = q
provider_or p (err e) = p

module _ (sys : System) (r : Registry) (keyed : IsKeyed r) where
  found-driver :
      (d : String) (p : Provider) (o : Option Provider)
      → Dict.get (normalize_driver d) r ≡ o
      → registered sys d o ≡ ok p
      → Dict.get (normalize_driver (driver p)) r ≡ some p
  found-driver d p none g e = ground (arith, e)
  found-driver d p (some q) g e =
      let same : q ≡ p = ap (provider_or p) e in
      let found = g ∙ ap some same in
      subst (λ x. Dict.get x r ≡ some p) (get-IsKeyed (normalize_driver d) p r keyed found) found

  -- A provider that was found is found under its own driver too.
  resolve-driver :
      (d : String) (p : Provider)
      → resolve_provider sys (some r) d ≡ ok p
      → resolve_provider sys (some r) (driver p) ≡ ok p
  unfolding resolve_provider
  resolve-driver d p e = rw (found-driver d p (Dict.get (normalize_driver d) r) refl e) refl

abbrev IsAttachedBy : Provider → Result VolumeAttachment → Type 0
IsAttachedBy p (err e) = Unit
IsAttachedBy p (ok a) = attachment_driver a ≡ driver p

abbrev IsProvisionedBy : Provider → Result VolumeHandle → Type 0
IsProvisionedBy p (err e) = Unit
IsProvisionedBy p (ok h) = h.driver ≡ driver p

module _ (sys : System) where
  -- `Provision` of a provider, once the name is normalised
  abbrev provision_as : Provider → VolumeSpec → Result String → S (Result VolumeHandle)
  provision_as (local p) spec name = Local.provision_named sys p spec name
  provision_as (nfs p) spec name = pure (nfs_named sys p spec name)
  provision_as (ceph_rbd p) spec name = pure (ceph_named sys p spec name)

  made-IsAttachedBy :
      (p : Provider) (name : String) (a : VolumeAttachment) (e : Option String)
      → attachment_driver a ≡ driver p
      → IsAttachedBy p (stage_made sys name a e)
  made-IsAttachedBy p name a none d = d
  made-IsAttachedBy p name a (some e) d = tt

  staged-IsAttachedBy :
      (p : Provider) (m : Dict String) (h : VolumeHandle) (id path : String) (read_only : Bool)
      (stage : Result String) (cs : List DirCall)
      → or_empty (Dict.get "driver" m) ≡ driver p
      → IsAttachedBy p (attach_at sys (driver p) m h id path read_only stage cs).0
  unfolding act
  staged-IsAttachedBy p m h id path read_only (err e) cs d = tt
  staged-IsAttachedBy p m h id path read_only (ok stage) cs d =
      made-IsAttachedBy p (driver p) (staged sys h id path read_only m stage)
        (sys.dir_error (makes stage ∷ cs)) d

  attach-IsAttachedBy :
      (p : Provider) (h : VolumeHandle) (id path : String) (read_only : Bool) (cs : List DirCall)
      → IsAttachedBy p (attach sys p h id path read_only cs).0
  unfolding attach driver Dict.get attach_staged Local.attach
  attach-IsAttachedBy (local p) h id path read_only cs = refl
  attach-IsAttachedBy (nfs p) h id path read_only cs =
      staged-IsAttachedBy (nfs p) (nfs_metadata sys p) h id path read_only
        (safe_join sys p.stage_root (sys.join (trim_space id) (replace_char b':' "_" h.id))) cs refl
  attach-IsAttachedBy (ceph_rbd p) h id path read_only cs =
      staged-IsAttachedBy (ceph_rbd p) (ceph_metadata sys p) h id path read_only
        (safe_join sys p.stage_root (sys.join (trim_space id) (replace_char b':' "_" h.id))) cs refl

  made-IsProvisionedBy :
      (p : LocalProvider) (spec : VolumeSpec) (name path : String) (e : Option String)
      → IsProvisionedBy (local p) (Local.made sys spec name path e)
  unfolding driver
  made-IsProvisionedBy p spec name path none = refl
  made-IsProvisionedBy p spec name path (some e) = tt

  at-IsProvisionedBy :
      (p : LocalProvider) (spec : VolumeSpec) (name : String) (path : Result String)
      (cs : List DirCall)
      → IsProvisionedBy (local p) (Local.provision_at sys spec name path cs).0
  unfolding act
  at-IsProvisionedBy p spec name (err e) cs = tt
  at-IsProvisionedBy p spec name (ok path) cs =
      made-IsProvisionedBy p spec name path (sys.dir_error (makes path ∷ cs))

  named-IsProvisionedBy :
      (p : Provider) (spec : VolumeSpec) (name : Result String) (cs : List DirCall)
      → IsProvisionedBy p (provision_as p spec name cs).0
  unfolding driver
  named-IsProvisionedBy (local p) spec (err e) cs = tt
  named-IsProvisionedBy (local p) spec (ok name) cs =
      at-IsProvisionedBy p spec name (safe_join sys p.base_path name) cs
  named-IsProvisionedBy (nfs p) spec (err e) cs = tt
  named-IsProvisionedBy (nfs p) spec (ok name) cs = refl
  named-IsProvisionedBy (ceph_rbd p) spec (err e) cs = tt
  named-IsProvisionedBy (ceph_rbd p) spec (ok name) cs = refl

  provision-IsProvisionedBy :
      (p : Provider) (spec : VolumeSpec) (cs : List DirCall)
      → IsProvisionedBy p (provision sys p spec cs).0
  unfolding provision Local.provision provision_nfs provision_ceph
  provision-IsProvisionedBy (local p) spec cs =
      named-IsProvisionedBy (local p) spec (normalize_volume_name sys spec.name) cs
  provision-IsProvisionedBy (nfs p) spec cs =
      named-IsProvisionedBy (nfs p) spec (normalize_volume_name sys spec.name) cs
  provision-IsProvisionedBy (ceph_rbd p) spec cs =
      named-IsProvisionedBy (ceph_rbd p) spec (normalize_volume_name sys spec.name) cs

  valid-IsProvisionedBy :
      (p : Provider) (spec : VolumeSpec) (e : Option Err) (cs : List DirCall)
      → IsProvisionedBy p (if_valid sys e (provision sys p spec) cs).0
  valid-IsProvisionedBy p spec none cs = provision-IsProvisionedBy p spec cs
  valid-IsProvisionedBy p spec (some e) cs = tt

module _ (sys : System) (ps : List (Option Provider)) (spec : VolumeSpec) (p : Provider)
    (found : resolve_provider sys (some (registry_of ps)) spec.driver ≡ ok p)
    (cs later : List DirCall) where
  again : resolve_provider sys (some (registry_of ps)) (driver p) ≡ ok p
  again = resolve-driver sys (registry_of ps) (registry_of-IsKeyed ps) spec.driver p found

  -- After any registrations, the provider that the driver of a volume leads to, however that driver
  -- is spelled, is the one that is asked to detach what it attached.
  pub detach_volume-attach_volume :
      (h : VolumeHandle) (id : String) (a : VolumeAttachment)
      → (attach_volume sys (some (registry_of ps)) spec h id cs).0 ≡ ok a
      → detach_volume sys (some (registry_of ps)) (some a) later ≡ detach sys p a later
  unfolding attach_volume detach_volume
  detach_volume-attach_volume h id a e =
      let made = subst (λ r. (attach_with sys spec h id r cs).0 ≡ ok a) found e in
      let by : attachment_driver a ≡ driver p =
        subst (IsAttachedBy p) made
          (attach-IsAttachedBy sys p h id spec.mount_path spec.read_only cs) in
      rw (by, again) refl

  -- After any registrations, the provider that the driver of a volume leads to, however that driver
  -- is spelled, is the one that is asked to delete the volume that it provisioned.
  pub delete_volume-provision_volume :
      (h : VolumeHandle)
      → (provision_volume sys (some (registry_of ps)) spec cs).0 ≡ ok h
      → delete_volume sys (some (registry_of ps)) (some h) later ≡ delete sys p h later
  unfolding provision_volume delete_volume
  delete_volume-provision_volume h e =
      let made = subst (λ r. (provision_with sys spec r cs).0 ≡ ok h) found e in
      let by : h.driver ≡ driver p =
        subst (IsProvisionedBy p) made
          (valid-IsProvisionedBy sys p spec (validate sys p spec) cs) in
      rw (by, again) refl

-- ===== src/Workload/Storage.antt =====
-- internal/workload/manager.go: the managed volumes of a workload, made and attached before it is
-- created, taken back after a failure, and released with it.
pub mod Devices
use Prim.Native.Char.{Char, code}
use compute_agent.Base.{
  ℕ, suc, ◌+◌, ◌%◌, String, ◌<>◌, Bool, true, false, not, ◌&&◌, ◌||◌, Option, none, some, List, [],
  ◌∷◌, ◌++◌, ◌==◌, ltb, str_eq, codes, lower_codes, trim_space, is_blank, decimal, is_empty,
  if◌then◌else◌, any,
}
use compute_agent.Base.Dict
use compute_agent.Base.Dict.{Dict}
use compute_agent.Models.{Time, WorkloadType, container, compose, vm, other_type, Workload}
use compute_agent.Volumes.{
  ManagedVolumeSpec, VolumeSpec, VolumeHandle, VolumeAttachment, volume_spec_from_model,
}
use compute_agent.Specs.{ContainerSpec, VmSpec, VolumeMount, DiskConfig}
use compute_agent.Clock.{is_after}
use compute_agent.Errors.{Err, plain, error_text, Result, ok, err}
use compute_agent.Workload.World.{
  Env, M, pure, ◌>>=◌, ◌>>◌, on_result, on_error, now, act, detaches, deletes_volume, save_volume,
  save_attachment, delete_volume, delete_attachment, get_volume, list_attachments, provision,
  attach,
}
use compute_agent.Workload.Status.{same_codes, or_empty}
use Devices.{next_vm_managed_disk_device}

-- `managedStorageAllocation`
pub record Allocation : Type 0 where
  pub spec : ManagedVolumeSpec
  pub handle : VolumeHandle
  pub attachment : VolumeAttachment

abbrev with_driver : ManagedVolumeSpec → ManagedVolumeSpec
with_driver s = if is_blank (trim_space s.driver) then record s { driver = "local" } else s

abbrev with_retain_policy : ManagedVolumeSpec → ManagedVolumeSpec
with_retain_policy s =
    if is_blank (trim_space s.retain_policy) then record s { retain_policy = "Delete" } else s

-- `strings.ToLower(strings.TrimSpace(retainPolicy)) == "retain"`
unfoldable pub retains : String → Bool
unfolding same_codes lower_codes
retains policy = same_codes (lower_codes (trim_space policy)) (codes "retain")

abbrev cons_some : Char → Option String → Option String
cons_some c none = none
cons_some c (some s) = some (String.◌∷◌ c s)

-- `parts[0] + ":" + parts[1]` of a text split at its colons: the text up to its second colon, if it
-- has a first one. The flag says whether the first one was passed.
volume_part : Bool → String → Option String
volume_part seen String.[] = if seen then some "" else none
volume_part seen (String.◌∷◌ c s) =
    let colon = code c == b':' in
    let rest = volume_part (seen || colon) s in if colon && seen then some "" else cons_some c rest

-- `volumeHandleIDFromAttachment`
unfoldable pub volume_handle_id_from_attachment : VolumeAttachment → String
unfolding volume_part
volume_handle_id_from_attachment a =
    if is_blank (trim_space a.volume_id)
    then or_empty (volume_part false (trim_space a.id))
    else a.volume_id

-- `sort.SliceStable`, the newest first.
insert_by_age : VolumeAttachment → List VolumeAttachment → List VolumeAttachment
insert_by_age a [] = a ∷ []
insert_by_age a (b ∷ bs) =
    if is_after b.created_at a.created_at then b ∷ insert_by_age a bs else a ∷ b ∷ bs

unfoldable pub newest_first : List VolumeAttachment → List VolumeAttachment
unfolding insert_by_age
newest_first [] = []
newest_first (a ∷ more) = insert_by_age a (newest_first more)

abbrev mount_of : ManagedVolumeSpec → VolumeAttachment → VolumeMount
mount_of s a = record {
  host_path = a.stage_path;
  container_path = s.mount_path;
  read_only = s.read_only;
}

abbrev disk_path : VolumeHandle → VolumeAttachment → String
disk_path h a =
    if is_blank (trim_space h.device) then trim_space a.stage_path else trim_space h.device

abbrev disk_of : ManagedVolumeSpec → String → String → DiskConfig
disk_of s path device = record {
  path = path;
  device = device;
  format = "raw";
  size_gb = s.size_gb;
  kind = "disk";
  boot = false;
}

module _ (env : Env) where
  unfoldable pub normalize_managed_volume_spec : ManagedVolumeSpec → ℕ → Result ManagedVolumeSpec
  normalize_managed_volume_spec s idx =
      if is_blank (trim_space s.name)
      then err (plain ("managed volume at index " <> decimal idx <> " is missing name"))
      else if is_blank (trim_space s.mount_path)
      then err (plain ("managed volume " <> env.quote s.name <> " is missing mount_path"))
      else ok (with_retain_policy (with_driver s))

  volume_error : String → ManagedVolumeSpec → Err → Err
  volume_error verb s e =
      plain (verb <> " volume " <> env.quote s.name <> " (" <> s.driver <> "): " <> error_text e)

  -- The steps that containers and machines share: provision, save, attach, save.
  attach_provisioned : String → ManagedVolumeSpec → VolumeHandle → M (Result Allocation)
  unfolding volume_error
  attach_provisioned workload_id s h = do
    let h' = record h {
      metadata =
          Dict.put "mount_path" (trim_space s.mount_path)
            (Dict.put "retain_policy" (trim_space s.retain_policy) h.metadata);
    }
    (saved, h'') ← save_volume env h'
    r ← attach env (volume_spec_from_model s) h'' workload_id
    on_result r
        (λ a. do
          (saved', a') ← save_attachment env (record a {
            metadata =
                Dict.put "retain_policy" (trim_space s.retain_policy)
                  (Dict.put "driver" (trim_space s.driver) a.metadata);
          })
          pure (ok (record { spec = s; handle = h''; attachment = a' })))
        (λ e. pure (err (volume_error "attach" s e)))

  unfoldable pub provision_and_attach : String → ManagedVolumeSpec → M (Result Allocation)
  unfolding attach_provisioned
  provision_and_attach workload_id s = do
    r ← provision env (volume_spec_from_model s)
    on_result r (λ h. attach_provisioned workload_id s h)
        (λ e. pure (err (volume_error "provision" s e)))

  -- The loop over the volumes of a container, with the index of the next one.
  unfoldable pub attach_mounts :
      String
      → List ManagedVolumeSpec
      → ℕ
      → ContainerSpec
      → List Allocation
      → M (Result (ContainerSpec × List Allocation))
  attach_mounts id [] idx c done = pure (ok (c, done))
  attach_mounts id (raw ∷ rest) idx c done =
      let next = λ (s : ManagedVolumeSpec) (a : Allocation).
        attach_mounts id rest (suc idx)
          (record c { volumes = c.volumes ++ mount_of s a.attachment ∷ [] }) (done ++ a ∷ []) in
      on_result (normalize_managed_volume_spec raw idx)
        (λ s. do r ← provision_and_attach id s; on_result r (λ a. next s a) (λ e. pure (err e)))
        (λ e. pure (err e))

  -- The loop over the volumes of a machine.
  unfoldable pub attach_disks :
      String
      → List ManagedVolumeSpec
      → ℕ
      → VmSpec
      → List Allocation
      → M (Result (VmSpec × List Allocation))
  attach_disks id [] idx v done = pure (ok (v, done))
  attach_disks id (raw ∷ rest) idx v done =
      let next = λ (s : ManagedVolumeSpec) (a : Allocation) (t : Time).
        let path = disk_path a.handle a.attachment in
        let device = next_vm_managed_disk_device v.disks t in
        attach_disks id rest (suc idx) (record v { disks = v.disks ++ disk_of s path device ∷ [] })
          (done ++ a ∷ []) in
      on_result (normalize_managed_volume_spec raw idx)
        (λ s. do
          r ← provision_and_attach id s
          on_result r
              (λ a.
                if is_blank (disk_path a.handle a.attachment)
                then pure (
                    err (
                      plain (
                        "managed volume "
                        <> env.quote s.name
                        <> " did not provide attachable disk path")))
                else (do t ← now env; next s a t))
              (λ e. pure (err e)))
        (λ e. pure (err e))

  abbrev not_configured : Err
  not_configured = plain "managed volume requested but volume manager is not configured"

  -- The workload with the specification that names the attached volumes, and what was allocated.
  abbrev Prepared : Type 0
  Prepared = Result (Workload × List Allocation)

  prepare_container : Workload → ContainerSpec → M Prepared
  prepare_container w c =
      if is_empty c.managed_volumes
      then pure (ok (w, []))
      else if not env.has_volume_manager
      then pure (err not_configured)
      else (do
        r ← attach_mounts w.id c.managed_volumes 0 c []
        on_result r
            (λ done.
              on_result (env.encode_container done.0)
                (λ fields. pure (ok (record w { spec = fields }, done.1)))
                (λ e.
                  pure (err (plain ("failed to encode updated container spec: " <> error_text e)))))
            (λ e. pure (err e)))

  prepare_vm : Workload → VmSpec → M Prepared
  prepare_vm w v =
      if is_empty v.managed_volumes
      then pure (ok (w, []))
      else if not env.has_volume_manager
      then pure (err not_configured)
      else (do
        r ← attach_disks w.id v.managed_volumes 0 v []
        on_result r
            (λ done.
              on_result (env.encode_vm done.0)
                (λ fields. pure (ok (record w { spec = fields }, done.1)))
                (λ e. pure (err (plain ("failed to encode updated vm spec: " <> error_text e)))))
            (λ e. pure (err e)))

  prepare_by_kind : WorkloadType → Workload → M Prepared
  unfolding prepare_container prepare_vm
  prepare_by_kind container w =
      on_result (env.decode_container w.spec) (λ c. prepare_container w c)
        (λ e.
          pure
            (err (plain ("failed to parse container spec for managed volumes: " <> error_text e))))
  prepare_by_kind compose w = pure (ok (w, []))
  prepare_by_kind vm w =
      on_result (env.decode_vm w.spec) (λ v. prepare_vm w v)
        (λ e. pure (err (plain ("failed to parse vm spec for managed volumes: " <> error_text e))))
  prepare_by_kind (other_type s) w = pure (ok (w, []))

  unfoldable pub prepare_managed_storage : Workload → M Prepared
  unfolding prepare_by_kind
  prepare_managed_storage w = prepare_by_kind w.kind w

  -- One round of the rollback.
  clean_up_allocation : Bool → Allocation → M (Unit {0})
  unfolding retains
  clean_up_allocation delete_handles a = do
    e ← act env (detaches a.attachment)
    e' ← delete_attachment env a.attachment.id
    if delete_handles && not (retains a.spec.retain_policy)
        then (do d ← act env (deletes_volume a.handle); d' ← delete_volume env a.handle.id; pure tt)
        else pure tt

  -- The last allocation is taken back first.
  clean_up_backwards : Bool → List Allocation → M (Unit {0})
  unfolding clean_up_allocation
  clean_up_backwards delete_handles [] = pure tt
  clean_up_backwards delete_handles (a ∷ more) = do
    clean_up_backwards delete_handles more
    clean_up_allocation delete_handles a

  -- `cleanupManagedStorageAllocations`
  unfoldable pub cleanup_allocations : List Allocation → Bool → M (Unit {0})
  unfolding clean_up_backwards
  cleanup_allocations allocations delete_handles =
      if is_empty allocations || not env.has_volume_manager
      then pure tt
      else clean_up_backwards delete_handles allocations

  -- The volume of a released attachment is deleted unless it is to be retained; its record goes
  -- only if the deletion succeeds.
  release_volume : VolumeHandle → M (Unit {0})
  unfolding retains
  release_volume h =
      if retains (or_empty (Dict.get "retain_policy" h.metadata)) then pure tt else (do
        e ← act env (deletes_volume h)
        on_error e (do e' ← delete_volume env h.id; pure tt) (λ _. pure tt))

  -- The loop over the attachments, with the volumes visited so far.
  unfoldable pub release_attachments : List VolumeAttachment → List String → M (Unit {0})
  unfolding release_volume
  release_attachments [] visited = pure tt
  release_attachments (a ∷ more) visited =
      let id = volume_handle_id_from_attachment a in
      let skip = is_blank id || any (str_eq id) visited in
      let rest = release_attachments more (if skip then visited else id ∷ visited) in
      (do
        e ← act env (detaches a)
        e' ← delete_attachment env a.id
        if skip then rest else (do
          r ← get_volume env id
          on_result r (λ h. release_volume h) (λ _. pure tt)
          rest))

  -- `releaseManagedStorageForWorkload`
  unfoldable pub release_managed_storage : String → M (Unit {0})
  release_managed_storage id = if not env.has_volume_manager then pure tt else (do
    r ← list_attachments env id
    on_result r (λ attachments. release_attachments (newest_first attachments) []) (λ _. pure tt))

-- ===== src/Workload/Keeps/Volumes.antt =====
-- Which calls the managed-storage methods make: provisions, attaches, detaches and deletions of
-- volumes, and nothing else.
use compute_agent.Base.{ℕ, String, List, [], ◌∷◌}
use compute_agent.Volumes.{ManagedVolumeSpec, VolumeSpec, VolumeHandle, VolumeAttachment}
use compute_agent.Specs.{ContainerSpec}
use compute_agent.Workload.World.{
  Env, Call, save_volume, save_attachment, delete_volume, delete_attachment, get_volume,
  list_attachments, provision, attach,
}
use compute_agent.Workload.Storage.{Allocation, provision_and_attach, attach_mounts}
use compute_agent.Workload.Keeps.Calls.{added, Makes, makes_rules, Makes-update}

-- Every call to the volume manager satisfies `P`.
pub record AllowsVolumes (P : Call → Type 0) : Type 0 where
  pub provisions : (s : VolumeSpec) → P (Call.provisions s)
  pub attaches : (s : VolumeSpec) (h : VolumeHandle) (id : String) → P (Call.attaches s h id)
  pub detaches : (a : VolumeAttachment) → P (Call.detaches a)
  pub deletes_volume : (h : VolumeHandle) → P (Call.deletes_volume h)

module _ (env : Env) (P : Call → Type 0) (old : List Call) where
  Makes-save_volume : (h : VolumeHandle) → Makes P old (save_volume env h)
  unfolding save_volume
  Makes-save_volume h = search (makes_rules, Makes-update) depth 8

  Makes-save_attachment : (a : VolumeAttachment) → Makes P old (save_attachment env a)
  unfolding save_attachment
  Makes-save_attachment a = search (makes_rules, Makes-update) depth 8

  Makes-delete_volume : (id : String) → Makes P old (delete_volume env id)
  unfolding delete_volume
  Makes-delete_volume id = search Makes-update

  Makes-delete_attachment : (id : String) → Makes P old (delete_attachment env id)
  unfolding delete_attachment
  Makes-delete_attachment id = search Makes-update

  Makes-get_volume : (id : String) → Makes P old (get_volume env id)
  unfolding get_volume
  Makes-get_volume id = record { at = λ w h. h }

  Makes-list_attachments : (id : String) → Makes P old (list_attachments env id)
  unfolding list_attachments
  Makes-list_attachments id = record { at = λ w h. h }

module _ (env : Env) (P : Call → Type 0) (old : List Call) (allows : AllowsVolumes P) where
  Makes-provision : (s : VolumeSpec) → Makes P old (provision env s)
  unfolding provision
  Makes-provision s = record { at = λ w h. added (allows.provisions s) h }

  Makes-attach : (s : VolumeSpec) (h : VolumeHandle) (id : String) → Makes P old (attach env s h id)
  unfolding attach
  Makes-attach s h id = record { at = λ w k. added (allows.attaches s h id) k }

  Makes-provision_and_attach :
      (id : String) (s : ManagedVolumeSpec) → Makes P old (provision_and_attach env id s)
  unfolding provision_and_attach
  Makes-provision_and_attach id s =
      search (makes_rules, Makes-provision, Makes-attach, Makes-save_volume, Makes-save_attachment)
        depth 12

  Makes-attach_mounts :
      (id : String) (raws : List ManagedVolumeSpec) (idx : ℕ) (c : ContainerSpec)
      (done : List Allocation)
      → Makes P old (attach_mounts env id raws idx c done)
  unfolding attach_mounts
  Makes-attach_mounts id [] idx c done = search makes_rules
  Makes-attach_mounts id (raw ∷ rest) idx c done =
      search (makes_rules, Makes-provision_and_attach, Makes-attach_mounts id rest) depth 8

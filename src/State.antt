-- ===== src/State.antt =====
-- internal/state/store.go and internal/state/bolt_volume.go: the four buckets of the agent's
-- database and what each store operation does to them. The bodies of the transactions are here;
-- that a transaction may fail, which leaves the buckets alone, is in `Workload.World`. A stored
-- value stands for its JSON, which decodes to what was encoded.
pub mod Laws
pub mod Refinement
use compute_agent.Base.{
  String, Bool, true, false, not, ◌&&◌, Option, none, some, List, [], ◌∷◌, str_eq, trim_space,
  is_blank, filter, if◌then◌else◌,
}
use compute_agent.Base.Dict
use compute_agent.Base.Dict.{Dict}
use compute_agent.Models.{Time, is_zero_time, Workload, WorkloadStatus}
use compute_agent.Volumes.{VolumeHandle, VolumeAttachment}

pub record Buckets : Type 0 where
  pub workloads : Dict Workload
  pub statuses : Dict WorkloadStatus
  pub volumes : Dict VolumeHandle
  pub attachments : Dict VolumeAttachment

-- `NewBoltStore` makes the buckets that are not there.
abbrev pub no_buckets : Buckets
no_buckets = record { workloads = []; statuses = []; volumes = []; attachments = [] }

-- What `SaveWorkload` writes into the object before it is stored.
abbrev pub stamp_workload : Time → Workload → Workload
stamp_workload now w = record w {
  updated_at = now;
  created_at = if is_zero_time w.created_at then now else w.created_at;
}

unfoldable pub save_workload : Time → Workload → Buckets → Buckets
save_workload now w b = record b { workloads = Dict.put w.id (stamp_workload now w) b.workloads }

abbrev pub get_workload : String → Buckets → Option Workload
get_workload id b = Dict.get id b.workloads

abbrev pub list_workloads : Buckets → List Workload
list_workloads b = Dict.values b.workloads

abbrev pub stamp_status : Time → WorkloadStatus → WorkloadStatus
stamp_status now s = record s {
  updated_at = now;
  created_at = if is_zero_time s.created_at then now else s.created_at;
}

unfoldable pub save_status : Time → WorkloadStatus → Buckets → Buckets
save_status now s b = record b { statuses = Dict.put s.id (stamp_status now s) b.statuses }

abbrev pub get_status : String → Buckets → Option WorkloadStatus
get_status id b = Dict.get id b.statuses

abbrev pub list_statuses : Buckets → List WorkloadStatus
list_statuses b = Dict.values b.statuses

-- The first pass of `DeleteWorkload` over the attachments.
unfoldable pub keys_to_delete : String → Dict VolumeAttachment → List String
keys_to_delete id [] = []
keys_to_delete id ((k, a) ∷ m) =
    let rest = keys_to_delete id m in if str_eq a.workload_id id then k ∷ rest else rest

-- The second pass.
unfoldable pub delete_keys {ℓ} : {V : Type ℓ} → List String → Dict V → Dict V
delete_keys [] m = m
delete_keys (k ∷ ks) m = delete_keys ks (Dict.remove k m)

unfoldable pub delete_workload : String → Buckets → Buckets
unfolding keys_to_delete delete_keys
delete_workload id b = record b {
  workloads = Dict.remove id b.workloads;
  statuses = Dict.remove id b.statuses;
  attachments = delete_keys (keys_to_delete id b.attachments) b.attachments;
}

abbrev pub stamp_volume : Time → VolumeHandle → VolumeHandle
stamp_volume now h = record h {
  updated_at = now;
  created_at = if is_zero_time h.created_at then now else h.created_at;
}

-- Whether `SaveVolume` and `SaveAttachment` accept an identifier.
abbrev pub has_id : String → Bool
has_id id = not (is_blank (trim_space id))

unfoldable pub save_volume : Time → VolumeHandle → Buckets → Buckets
save_volume now h b = record b { volumes = Dict.put h.id (stamp_volume now h) b.volumes }

abbrev pub get_volume : String → Buckets → Option VolumeHandle
get_volume id b = Dict.get id b.volumes

unfoldable pub delete_volume : String → Buckets → Buckets
delete_volume id b = record b { volumes = Dict.remove id b.volumes }

abbrev pub list_volumes : Buckets → List VolumeHandle
list_volumes b = Dict.values b.volumes

abbrev pub stamp_attachment : Time → VolumeAttachment → VolumeAttachment
stamp_attachment now a = record a {
  updated_at = now;
  created_at = if is_zero_time a.created_at then now else a.created_at;
}

unfoldable pub save_attachment : Time → VolumeAttachment → Buckets → Buckets
save_attachment now a b = record b {
  attachments = Dict.put a.id (stamp_attachment now a) b.attachments;
}

abbrev pub get_attachment : String → Buckets → Option VolumeAttachment
get_attachment id b = Dict.get id b.attachments

unfoldable pub delete_attachment : String → Buckets → Buckets
delete_attachment id b = record b { attachments = Dict.remove id b.attachments }

-- A blank argument lists all attachments.
unfoldable pub list_attachments : String → Buckets → List VolumeAttachment
list_attachments workload_id b =
    let wanted = trim_space workload_id in
    filter (λ a. not (not (is_blank wanted) && not (str_eq a.workload_id wanted)))
      (Dict.values b.attachments)

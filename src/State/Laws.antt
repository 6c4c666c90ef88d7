-- ===== src/State/Laws.antt =====
-- What the store's operations promise (internal/state/store.go).
use compute_agent.Base.{
  String, ◌≡◌, refl, Bool, true, false, Option, none, some, List, [], ◌∷◌, str_eq, eq_iff, arith,
  if◌then◌else◌,
}
use compute_agent.Base.Dict
use compute_agent.Base.Dict.{
  Dict, get-put, get-remove, get-put_self, get-remove_self, Distinct, put-Distinct, remove-Distinct,
}
use compute_agent.Models.{Time, Workload, WorkloadStatus}
use compute_agent.Volumes.{VolumeHandle, VolumeAttachment}
use compute_agent.State.{
  Buckets, save_workload, get_workload, save_status, get_status, delete_workload, keys_to_delete,
  delete_keys, get_attachment, save_attachment, delete_attachment, save_volume, delete_volume,
}

-- A list of keys holds `k`.
abbrev has_key : String → List String → Bool
has_key k [] = false
has_key k (j ∷ ks) = if str_eq j k then true else has_key k ks

get-delete_keys {ℓ} :
    {V : Type ℓ} (k : String) (ks : List String) (m : Dict V)
    → Dict.get k (delete_keys ks m) ≡ (if has_key k ks then none else Dict.get k m)
unfolding delete_keys
get-delete_keys k [] m = refl
get-delete_keys k (j ∷ ks) m =
    ground (arith, get-delete_keys k ks (Dict.remove j m), get-remove k j m)

-- The value that a dictionary holds under `k`, if any, is an attachment of the workload `id`.
abbrev belongs : String → Option VolumeAttachment → Bool
belongs id none = false
belongs id (some a) = str_eq a.workload_id id

has_key-keys_to_delete :
    (id k : String) (m : Dict VolumeAttachment)
    → Distinct m
    → has_key k (keys_to_delete id m) ≡ belongs id (Dict.get k m)
unfolding keys_to_delete Dict.get
has_key-keys_to_delete id k [] d = refl
has_key-keys_to_delete id k ((j, a) ∷ m) d =
    ground (arith, eq_iff j k, has_key-keys_to_delete id k m d.1)

-- What is found after `DeleteWorkload id`: neither the workload nor its status, no attachment of
-- it, and everything else as before.
pub record IsDeletion (id : String) (b c : Buckets) : Type 0 where
  pub workload : (k : String) → get_workload k c ≡ (if str_eq id k then none else get_workload k b)
  pub status : (k : String) → get_status k c ≡ (if str_eq id k then none else get_status k b)
  pub attachment :
      (k : String)
      → get_attachment k c ≡ (if belongs id (get_attachment k b) then none else get_attachment k b)
  pub volumes : c.volumes ≡ b.volumes

-- After `DeleteWorkload` of an identifier neither the workload nor its status is found, no
-- attachment of it is, and everything else is found as before, volumes included; attachments must
-- have distinct keys.
pub delete_workload-IsDeletion :
    (id : String) (b : Buckets) → Distinct b.attachments → IsDeletion id b (delete_workload id b)
unfolding delete_workload
delete_workload-IsDeletion id b d = record {
  workload = λ k. get-remove k id b.workloads;
  status = λ k. get-remove k id b.statuses;
  attachment = λ k.
      rw
        (
          get-delete_keys k (keys_to_delete id b.attachments) b.attachments,
          has_key-keys_to_delete id k b.attachments d,
        )
        refl;
  volumes = refl;
}

-- No key stands twice, and every value is stored under its own identifier.
pub record IsKeyed {ℓ} {V : Type ℓ} (id : V → String) (m : Dict V) : Type ℓ where
  pub distinct : Distinct m
  pub own : (k : String) (v : V) → Dict.get k m ≡ some v → id v ≡ k

module _ {ℓ} {V : Type ℓ} (id : V → String) where
  pub put-IsKeyed :
      (k : String) (v : V) (m : Dict V) → id v ≡ k → IsKeyed id m → IsKeyed id (Dict.put k v m)
  put-IsKeyed k v m e h = record {
    distinct = put-Distinct k v m h.distinct;
    own = λ j u f. ground (arith, get-put j k v m, eq_iff k j, h.own j u);
  }

  pub remove-IsKeyed : (j : String) (m : Dict V) → IsKeyed id m → IsKeyed id (Dict.remove j m)
  remove-IsKeyed j m h = record {
    distinct = remove-Distinct j m h.distinct;
    own = λ k u f. ground (arith, get-remove k j m, h.own k u);
  }

  pub delete_keys-IsKeyed :
      (ks : List String) (m : Dict V) → IsKeyed id m → IsKeyed id (delete_keys ks m)
  unfolding delete_keys
  delete_keys-IsKeyed [] m h = h
  delete_keys-IsKeyed (j ∷ ks) m h = delete_keys-IsKeyed ks (Dict.remove j m) (remove-IsKeyed j m h)

pub record IsWellFormed (b : Buckets) : Type 0 where
  pub workloads : IsKeyed (λ (w : Workload). w.id) b.workloads
  pub statuses : IsKeyed (λ (s : WorkloadStatus). s.id) b.statuses
  pub volumes : IsKeyed (λ (h : VolumeHandle). h.id) b.volumes
  pub attachments : IsKeyed (λ (a : VolumeAttachment). a.id) b.attachments

-- The operations that write.
pub data Write : Type 0 where
  saves_workload : Time → Workload → Write
  saves_status : Time → WorkloadStatus → Write
  deletes_workload : String → Write
  saves_volume : Time → VolumeHandle → Write
  deletes_volume : String → Write
  saves_attachment : Time → VolumeAttachment → Write
  deletes_attachment : String → Write

unfoldable pub perform : Write → Buckets → Buckets
perform (saves_workload now w) b = save_workload now w b
perform (saves_status now s) b = save_status now s b
perform (deletes_workload id) b = delete_workload id b
perform (saves_volume now h) b = save_volume now h b
perform (deletes_volume id) b = delete_volume id b
perform (saves_attachment now a) b = save_attachment now a b
perform (deletes_attachment id) b = delete_attachment id b

-- Every write keeps keys apart and each value under its own identifier.
pub perform-IsWellFormed : (op : Write) (b : Buckets) → IsWellFormed b → IsWellFormed (perform op b)
unfolding perform save_workload save_status delete_workload save_volume delete_volume
    save_attachment delete_attachment
perform-IsWellFormed (saves_workload now w) b h = record {
  workloads = put-IsKeyed _ w.id _ b.workloads refl h.workloads;
  statuses = h.statuses;
  volumes = h.volumes;
  attachments = h.attachments;
}
perform-IsWellFormed (saves_status now s) b h = record {
  workloads = h.workloads;
  statuses = put-IsKeyed _ s.id _ b.statuses refl h.statuses;
  volumes = h.volumes;
  attachments = h.attachments;
}
perform-IsWellFormed (deletes_workload id) b h = record {
  workloads = remove-IsKeyed _ id b.workloads h.workloads;
  statuses = remove-IsKeyed _ id b.statuses h.statuses;
  volumes = h.volumes;
  attachments = delete_keys-IsKeyed _ (keys_to_delete id b.attachments) b.attachments h.attachments;
}
perform-IsWellFormed (saves_volume now v) b h = record {
  workloads = h.workloads;
  statuses = h.statuses;
  volumes = put-IsKeyed _ v.id _ b.volumes refl h.volumes;
  attachments = h.attachments;
}
perform-IsWellFormed (deletes_volume id) b h = record {
  workloads = h.workloads;
  statuses = h.statuses;
  volumes = remove-IsKeyed _ id b.volumes h.volumes;
  attachments = h.attachments;
}
perform-IsWellFormed (saves_attachment now a) b h = record {
  workloads = h.workloads;
  statuses = h.statuses;
  volumes = h.volumes;
  attachments = put-IsKeyed _ a.id _ b.attachments refl h.attachments;
}
perform-IsWellFormed (deletes_attachment id) b h = record {
  workloads = h.workloads;
  statuses = h.statuses;
  volumes = h.volumes;
  attachments = remove-IsKeyed _ id b.attachments h.attachments;
}

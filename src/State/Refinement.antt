-- ===== src/State/Refinement.antt =====
-- The store of internal/state as four partial functions: what the operations promise, without the
-- order of the keys and the passes over a bucket.
use mathlib.Core.Path.{fun_ext}
use compute_agent.Base.{
  ◌≡◌, ◌∙◌, refl, ap, String, Option, none, some, List, [], ◌∷◌, str_eq, arith, if◌then◌else◌,
}
use compute_agent.Base.Dict
use compute_agent.Base.Dict.{Dict, get-put, get-remove, Distinct}
use compute_agent.Models.{Workload, WorkloadStatus}
use compute_agent.Volumes.{VolumeHandle, VolumeAttachment}
use compute_agent.State.{
  Buckets, no_buckets, stamp_workload, stamp_status, stamp_volume, stamp_attachment, save_workload,
  save_status, delete_workload, save_volume, delete_volume, save_attachment, delete_attachment,
}
use compute_agent.State.Laws.{
  Write, saves_workload, saves_status, deletes_workload, saves_volume, deletes_volume,
  saves_attachment, deletes_attachment, perform, IsWellFormed, perform-IsWellFormed,
  delete_workload-IsDeletion,
}

pub record Store : Type 0 where
  pub workloads : String → Option Workload
  pub statuses : String → Option WorkloadStatus
  pub volumes : String → Option VolumeHandle
  pub attachments : String → Option VolumeAttachment

-- What the buckets say, key by key.
abbrev pub view : Buckets → Store
view b = record {
  workloads = λ k. Dict.get k b.workloads;
  statuses = λ k. Dict.get k b.statuses;
  volumes = λ k. Dict.get k b.volumes;
  attachments = λ k. Dict.get k b.attachments;
}

abbrev pub empty : Store
empty = record {
  workloads = λ k. none;
  statuses = λ k. none;
  volumes = λ k. none;
  attachments = λ k. none;
}

abbrev set {ℓ} : {A : Type ℓ} → String → A → (String → Option A) → String → Option A
set k v f j = if str_eq k j then some v else f j

abbrev unset {ℓ} : {A : Type ℓ} → String → (String → Option A) → String → Option A
unset k f j = if str_eq k j then none else f j

-- An attachment of the workload is forgotten.
abbrev unless_of : String → Option VolumeAttachment → Option VolumeAttachment
unless_of id none = none
unless_of id (some a) = if str_eq a.workload_id id then none else some a

-- What each write does to the store.
pub specify : Write → Store → Store
specify (saves_workload t w) s = record s { workloads = set w.id (stamp_workload t w) s.workloads }
specify (saves_status t x) s = record s { statuses = set x.id (stamp_status t x) s.statuses }
specify (deletes_workload id) s = record s {
  workloads = unset id s.workloads;
  statuses = unset id s.statuses;
  attachments = λ k. unless_of id (s.attachments k);
}
specify (saves_volume t h) s = record s { volumes = set h.id (stamp_volume t h) s.volumes }
specify (deletes_volume id) s = record s { volumes = unset id s.volumes }
specify (saves_attachment t a) s = record s {
  attachments = set a.id (stamp_attachment t a) s.attachments;
}
specify (deletes_attachment id) s = record s { attachments = unset id s.attachments }

module _ {ℓ} {V : Type ℓ} where
  put-set :
      (k : String) (v : V) (m : Dict V)
      → (λ (j : String). Dict.get j (Dict.put k v m)) ≡ set k v (λ j. Dict.get j m)
  put-set k v m = fun_ext (λ j. get-put j k v m)

  remove-unset :
      (k : String) (m : Dict V)
      → (λ (j : String). Dict.get j (Dict.remove k m)) ≡ unset k (λ j. Dict.get j m)
  remove-unset k m = fun_ext (λ j. get-remove j k m)

deleted-unless_of :
    (id : String) (b : Buckets)
    → Distinct b.attachments
    → (view (delete_workload id b)).attachments ≡ (λ k. unless_of id (Dict.get k b.attachments))
deleted-unless_of id b d =
    let del = delete_workload-IsDeletion id b d in fun_ext (λ k. ground (arith, del.attachment k))

-- One write on a well-formed store is the abstract write.
perform-specify :
    (op : Write) (b : Buckets) → IsWellFormed b → view (perform op b) ≡ specify op (view b)
unfolding perform specify save_workload save_status save_volume delete_volume save_attachment
    delete_attachment delete_workload
perform-specify (saves_workload t w) b h =
    ap (λ f. record (view b) { workloads = f }) (put-set w.id (stamp_workload t w) b.workloads)
perform-specify (saves_status t s) b h =
    ap (λ f. record (view b) { statuses = f }) (put-set s.id (stamp_status t s) b.statuses)
perform-specify (deletes_workload id) b h =
    let w = remove-unset id b.workloads in
    let s = remove-unset id b.statuses in
    let a = deleted-unless_of id b h.attachments.distinct in
    λ i. record { workloads = w i; statuses = s i; volumes = (view b).volumes; attachments = a i }
perform-specify (saves_volume t v) b h =
    ap (λ f. record (view b) { volumes = f }) (put-set v.id (stamp_volume t v) b.volumes)
perform-specify (deletes_volume id) b h =
    ap (λ f. record (view b) { volumes = f }) (remove-unset id b.volumes)
perform-specify (saves_attachment t a) b h =
    ap (λ f. record (view b) { attachments = f })
      (put-set a.id (stamp_attachment t a) b.attachments)
perform-specify (deletes_attachment id) b h =
    ap (λ f. record (view b) { attachments = f }) (remove-unset id b.attachments)

unfoldable pub perform_all : List Write → Buckets → Buckets
perform_all [] b = b
perform_all (op ∷ ops) b = perform_all ops (perform op b)

unfoldable pub specify_all : List Write → Store → Store
specify_all [] s = s
specify_all (op ∷ ops) s = specify_all ops (specify op s)

perform_all-specify_all :
    (ops : List Write) (b : Buckets)
    → IsWellFormed b
    → view (perform_all ops b) ≡ specify_all ops (view b)
unfolding perform_all specify_all
perform_all-specify_all [] b h = refl
perform_all-specify_all (op ∷ ops) b h =
    perform_all-specify_all ops (perform op b) (perform-IsWellFormed op b h)
    ∙ ap (specify_all ops) (perform-specify op b h)

no_buckets-IsWellFormed : IsWellFormed no_buckets
unfolding Dict.get
no_buckets-IsWellFormed = record {
  workloads = record { distinct = tt; own = λ k v e. cc };
  statuses = record { distinct = tt; own = λ k v e. cc };
  volumes = record { distinct = tt; own = λ k v e. cc };
  attachments = record { distinct = tt; own = λ k v e. cc };
}

-- After any history of writes on a new database, what it finds under each key of each bucket is
-- what the same history makes of four empty partial functions; the deletion of a workload is there
-- one removal of the workload, of its status and of every attachment that names it.
pub perform_all-refines :
    (ops : List Write) → view (perform_all ops no_buckets) ≡ specify_all ops empty
unfolding Dict.get
perform_all-refines ops = perform_all-specify_all ops no_buckets no_buckets-IsWellFormed

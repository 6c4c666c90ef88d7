-- ===== src/Examples/Stores.antt =====
-- Examples of the store (internal/state).
use compute_agent.Base.{◌≡◌, refl, String, true, false, [], ◌∷◌, ◌⊎◌, any, arith}
use compute_agent.Base.Int.{pos}
use compute_agent.Base.Dict
use compute_agent.Models.{desired_running, DesiredState, ActualState, Workload, WorkloadStatus}
use compute_agent.Volumes.{VolumeAttachment}
use compute_agent.Specs.{DiskConfig}
use compute_agent.State.{no_buckets}
use compute_agent.State.Refinement.{view, empty, perform_all, specify_all, perform_all-refines}
use compute_agent.State.Laws.{
  IsWellFormed, IsKeyed, put-IsKeyed, perform, saves_workload, saves_attachment, deletes_workload,
  perform-IsWellFormed,
}
use compute_agent.Workload.Storage.Devices.{
  uses, candidates, all_used, next_vm_managed_disk_device, next_vm_managed_disk_device-free,
}
use compute_agent.Examples.Data.{web, web_status, web_attachment, stored}

perform_all-refines_example :
    let ops =
      saves_workload 5 (web desired_running)
      ∷ saves_attachment 6 web_attachment
      ∷ deletes_workload "web"
      ∷ [] in
    view (perform_all ops no_buckets) ≡ specify_all ops empty
perform_all-refines_example = perform_all-refines (
    saves_workload 5 (web desired_running)
    ∷ saves_attachment 6 web_attachment
    ∷ deletes_workload "web"
    ∷ [])

empty-IsKeyed {ℓ} : {V : Type ℓ} (id : V → String) → IsKeyed id []
unfolding Dict.get
empty-IsKeyed id = record { distinct = tt; own = λ k v e. ground (arith, e) }

no_buckets-IsWellFormed : IsWellFormed no_buckets
no_buckets-IsWellFormed = record {
  workloads = empty-IsKeyed _;
  statuses = empty-IsKeyed _;
  volumes = empty-IsKeyed _;
  attachments = empty-IsKeyed _;
}

one-IsKeyed {ℓ} : {V : Type ℓ} (id : V → String) (v : V) → IsKeyed id ((id v, v) ∷ [])
unfolding Dict.put
one-IsKeyed id v = put-IsKeyed id (id v) v [] refl (empty-IsKeyed id)

pub stored-IsWellFormed : (d : DesiredState) (a : ActualState) → IsWellFormed (stored d a)
stored-IsWellFormed d a = record {
  workloads = one-IsKeyed (λ (w : Workload). w.id) (web d);
  statuses = one-IsKeyed (λ (s : WorkloadStatus). s.id) (web_status d a);
  volumes = empty-IsKeyed _;
  attachments = one-IsKeyed (λ (t : VolumeAttachment). t.id) web_attachment;
}

perform-IsWellFormed_example :
    IsWellFormed (perform (saves_workload 5 (web desired_running)) no_buckets)
perform-IsWellFormed_example =
    perform-IsWellFormed (saves_workload 5 (web desired_running)) no_buckets no_buckets-IsWellFormed

abbrev disk : DiskConfig
disk = record {
  path = "/disk";
  device = " VDB ";
  format = "raw";
  size_gb = pos 1;
  kind = "disk";
  boot = true;
}

next_vm_managed_disk_device-free_example :
    (any (uses (next_vm_managed_disk_device (disk ∷ []) 7)) (disk ∷ []) ≡ false)
    ⊎ (all_used (disk ∷ []) candidates ≡ true)
next_vm_managed_disk_device-free_example = next_vm_managed_disk_device-free (disk ∷ []) 7

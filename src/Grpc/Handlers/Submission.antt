-- ===== src/Grpc/Handlers/Submission.antt =====
-- The way of an apply request that the queue accepts, in internal/grpc/server.go.
use compute_agent.Base.{
  suc, ◌==◌, str_eq, ==_iff, Bool-cases, is_blank-append, ◌<◌, ◌≡◌, ◌≢◌, ◌⊎◌, inl, inr, refl, subst,
  String, ◌<>◌, Bool, true, false, ◌&&◌, none, some, List, [], ◌∷◌, ◌++◌, map, filter, length, All,
  arith, is_blank, trim_space, lower_codes, if◌then◌else◌,
}
use compute_agent.Base.Dict
use compute_agent.Base.Dict.{Dict}
use compute_agent.Base.Int.{ℤ, signed_decimal}
use compute_agent.Models
use compute_agent.Models.{Time, Workload, Fields}
use compute_agent.Errors.{Result, ok, err}
use compute_agent.TaskQueue.{
  Ref, Task, TaskSnapshot, Queue, snapshot, capacity, pending, apply_workload, workload_payload,
  set_object, submit, list_task_snapshots, list_tasks,
}
use compute_agent.Workload.World.{Env, World, now}
use compute_agent.Workload.Lifecycle.{current_status}
use compute_agent.Workload.Status.{same_codes}
use compute_agent.Grpc.Messages.{ApplyWorkloadRequest, WorkloadStatus, actual_pending}
use compute_agent.Grpc.Convert.{Codec, unix, unix_nano, spec_map, request_workload, status_to_proto}
use compute_agent.Grpc.Agent.{Agent}
use compute_agent.Grpc.Tasks.{pending_status, task_status, latest, task_report, status_text}
use compute_agent.Grpc.Tasks.Latest.{IsOlder, IsIn, latest_lem}
use compute_agent.Grpc.Handlers.{
  apply_request, status_request, status_answer, submitted, is_in_flight, merge_metadata, new_task,
  task_id, submit_new,
}

task_id-is_blank : (id : String) (t : Time) → is_blank (task_id "apply-" id t) ≡ false
task_id-is_blank id t = is_blank-append "apply-" (id <> ("-" <> signed_decimal (unix_nano t))) refl

-- A task that is another than the new one, and of another workload or older than the time `t`.
abbrev pub IsOther : String → Ref → Time → Queue → Ref → Type 0
IsOther id r t q e =
    ((e == r) ≡ false) × (((q.objects e).workload_id ≢ id) ⊎ ((q.objects e).created_at < t))

All-put {ℓ} :
    {V : Type ℓ} (P : V → Type 0) (k : String) (v : V) (m : Dict V)
    → P v
    → All P (Dict.values m)
    → All P (Dict.values (Dict.put k v m))
unfolding Dict.put
All-put P k v [] p h = (p, tt)
All-put P k v ((j, w) ∷ m) p h = elim (Bool-cases (str_eq j k)) [
  | inl e ↦ rw e (p, h.1)
  | inr e ↦ rw e (h.0, All-put P k v m p h.1)
]

-- The values after `f` of a dictionary that got the entry.
IsIn-put :
    {A : Type 0} (f : Ref → A) (k : String) (r : Ref) (m : Dict Ref)
    → IsIn (f r) (map f (Dict.values (Dict.put k r m)))
unfolding Dict.put
IsIn-put f k r [] = inl refl
IsIn-put f k r ((j, w) ∷ m) = elim (Bool-cases (str_eq j k)) [
  | inl e ↦ rw e (inl refl)
  | inr e ↦ rw e (inr (IsIn-put f k r m))
]

All-inr : (P Q : Ref → Type 0) (rs : List Ref) → All Q rs → All (λ e. P e ⊎ Q e) rs
All-inr P Q [] h = tt
All-inr P Q (r ∷ rs) h = (inr h.0, All-inr P Q rs h.1)

filter-true : (rs : List Ref) → filter (λ r. true) rs ≡ rs
filter-true [] = refl
filter-true (r ∷ rs) = rw (filter-true rs)

module _ (t : Time) (r : Ref) (job : Task) (q : Queue) where
  abbrev made : Task
  made = record job { created_at = t; status = pending }

  -- The queue once it has accepted the task, made at `t`.
  abbrev queued : Queue
  queued = record q {
    objects = λ s. if s == r then made else (if s == r then job else q.objects s);
    tasks = Dict.put job.id r q.tasks;
    task_ch = q.task_ch ++ r ∷ [];
  }

  submit-accepted :
      (picks_stop : Bool)
      → is_blank job.id ≡ false
      → length q.task_ch < capacity q
      → (q.is_stopping && picks_stop) ≡ false
      → submit picks_stop t r (set_object r job q) ≡ (none, queued)
  unfolding submit set_object
  submit-accepted picks_stop h room stays = ground (arith, ==_iff r r)

  snapshots-IsOlder :
      (id : String) (rs : List Ref)
      → All (λ e. (e ≡ r) ⊎ IsOther id r t q e) rs
      → All (IsOlder id (snapshot made)) (map (λ e. snapshot (queued.objects e)) rs)
  snapshots-IsOlder id [] h = tt
  snapshots-IsOlder id (e ∷ rs) h = (
    elim h.0 [
      | inl same ↦ inr (inl (ground (arith, ==_iff e r)))
      | inr (other, inl foreign) ↦ inl (rw other foreign)
      | inr (other, inr older) ↦ inr (inr (rw other older))
    ],
    snapshots-IsOlder id rs h.1,
  )

  snapshots-made : IsIn (snapshot made) (list_task_snapshots none queued)
  unfolding list_task_snapshots list_tasks
  snapshots-made = rw (filter-true (Dict.values (Dict.put job.id r q.tasks))) (
      subst
        (λ (s : TaskSnapshot).
          IsIn s (map (λ e. snapshot (queued.objects e)) (Dict.values (Dict.put job.id r q.tasks))))
        (ground (arith, ==_iff r r)) (IsIn-put (λ e. snapshot (queued.objects e)) job.id r q.tasks))

  module _ (env : Env) (id : String) (own : job.workload_id ≡ id)
      (named : is_blank (trim_space id) ≡ false)
      (others : All (IsOther id r t q) (Dict.values q.tasks)) where
    latest-queued : latest id none (list_task_snapshots none queued) ≡ some (snapshot made)
    unfolding list_task_snapshots list_tasks
    latest-queued =
        latest_lem id (snapshot made) none (list_task_snapshots none queued) own tt snapshots-made (
          rw (filter-true (Dict.values (Dict.put job.id r q.tasks))) (
            snapshots-IsOlder id (Dict.values (Dict.put job.id r q.tasks)) (
              All-put (λ e. (e ≡ r) ⊎ IsOther id r t q e) job.id r q.tasks (inl refl)
                (All-inr (λ e. e ≡ r) (IsOther id r t q) (Dict.values q.tasks) others))))

    pending_status-queued :
        (w : World)
        → pending_status env id (some queued) w ≡ (
          some (
              task_status id actual_pending "task pending execution" job.id "pending"
                (unix (env.clock w.reads))),
          record w { reads = suc w.reads },
        )
    unfolding pending_status task_report status_text now
    pending_status-queued w = rw (named, latest-queued)

-- What a client reads while its task waits.
abbrev pub IsWaiting : String → Result WorkloadStatus → Type 0
IsWaiting job (err e) = ⊥
IsWaiting job (ok s) =
    (s.actual_state ≡ actual_pending)
    × (s.message ≡ "task pending execution")
    × (Dict.get "task_id" s.metadata ≡ some job)
    × (Dict.get "task_status" s.metadata ≡ some "pending")

get-merged :
    (job state : String) (m : Dict String)
    → (Dict.get "task_id" (Dict.put "task_status" state (Dict.put "task_id" job m)) ≡ some job)
      × (Dict.get "task_status" (Dict.put "task_status" state (Dict.put "task_id" job m))
          ≡ some state)
get-merged job state m = (simp Dict.dict_laws, simp Dict.dict_laws)

status_answer-IsWaiting :
    (env : Env) (id job : String) (u : ℤ) (r : Result Models.WorkloadStatus) (a : Agent)
    → IsWaiting job
        (status_answer env r
          (some (task_status id actual_pending "task pending execution" job "pending" u))
          a).0
unfolding status_answer task_status is_in_flight merge_metadata Dict.put Dict.get same_codes
    lower_codes trim_space status_to_proto
status_answer-IsWaiting env id job u (err e) a = (refl, refl, refl, refl)
status_answer-IsWaiting env id job u (ok s) a =
    (refl, refl, (get-merged job "pending" s.metadata).0, (get-merged job "pending" s.metadata).1)

module _ (env : Env) (codec : Codec) (picks_stop : Bool) (r : Ref) (req : ApplyWorkloadRequest)
    (w : World) (q : Queue) (spec : Fields) where
  abbrev pub agent : Agent
  agent = record { world = w; queue = some q }

  -- The readings of the clock: two for the workload, one for the name of the task, one for its
  -- creation.
  abbrev pub created : Time
  created = env.clock (suc (suc (suc w.reads)))

  abbrev pub job_name : String
  job_name = task_id "apply-" req.id (env.clock (suc (suc w.reads)))

  abbrev job : Task
  job =
      new_task job_name req.id apply_workload
        (workload_payload (request_workload req spec (env.clock w.reads) (env.clock (suc w.reads))))

  apply_request-queued :
      spec_map codec req.spec ≡ ok spec
      → length q.task_ch < capacity q
      → (q.is_stopping && picks_stop) ≡ false
      → apply_request env codec picks_stop r req agent ≡ (
        submitted (
            task_status req.id actual_pending "task pending execution" job_name "pending"
              (unix (env.clock (suc (suc (suc (suc w.reads))))))),
        record {
          world = record w { reads = suc (suc (suc (suc (suc w.reads)))) };
          queue = some (queued created r job q);
        },
      )
  unfolding apply_request submit_new now submit unix Dict.put signed_decimal request_workload
  apply_request-queued decodes room stays = rw (
    decodes,
    submit-accepted created r job q picks_stop
        (task_id-is_blank req.id (env.clock (suc (suc w.reads)))) room stays,
  )

  -- An apply request whose specification decodes, on a queue with room that is not about to stop,
  -- is accepted and leaves the manager's world alone but for the clock. If the other tasks that the
  -- queue knows for the workload were made before, a status request that follows answers that the
  -- workload is pending, with the identifier and the state of the new task, whatever the store and
  -- the runtime hold.
  pub apply_request-IsWaiting :
      spec_map codec req.spec ≡ ok spec
      → is_blank (trim_space req.id) ≡ false
      → length q.task_ch < capacity q
      → (q.is_stopping && picks_stop) ≡ false
      → All (IsOther req.id r created q) (Dict.values q.tasks)
      → ((apply_request env codec picks_stop r req agent).0.applied ≡ true)
        × ((apply_request env codec picks_stop r req agent).1.world
            ≡ record w { reads = suc (suc (suc (suc (suc w.reads)))) })
        × IsWaiting job_name
            (status_request env req.id (apply_request env codec picks_stop r req agent).1).0
  unfolding status_request
  apply_request-IsWaiting decodes named room stays others =
      let w' : World = record w { reads = suc (suc (suc (suc (suc w.reads)))) } in
      let read = current_status env req.id w' in
      rw (apply_request-queued decodes room stays) (
        refl,
        refl,
        rw (pending_status-queued created r job q env req.id refl named others read.1) (
            status_answer-IsWaiting env req.id job_name (unix (env.clock read.1.reads)) read.0
              (record {
                world = record read.1 { reads = suc read.1.reads };
                queue = some (queued created r job q);
              })),
      )

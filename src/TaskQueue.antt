-- ===== src/TaskQueue.antt =====
-- internal/task/queue.go: the queue of asynchronous tasks.
-- A task is an object that the caller, the map, the channel and a worker share, so the model has
-- references. The lock of a task or of the queue is held for one operation here, and `executeTask`
-- is two operations, since its handler runs between them without a lock. What a handler does is a
-- function of the task it is given. Logging and the metrics observer are left out.
pub mod Refs
pub mod Lifecycle
pub mod Stats
pub mod Cleanup
pub mod Submission
use compute_agent.Base.{
  ℕ, suc, ◌+◌, ◌*◌, ◌==◌, any, str_eq, String, ◌<>◌, Bool, true, false, not, ◌&&◌, ◌||◌, Option,
  none, some, List, [], ◌∷◌, ◌++◌, length, filter, count, map, ltb, is_blank, if◌then◌else◌,
}
use compute_agent.Base.Dict
use compute_agent.Base.Dict.{Dict}
use compute_agent.Base.Int.{ℤ, pos, negsuc, ltb_ℤ}
use compute_agent.Clock.{Duration, sub_time}
use compute_agent.Errors.{Err, plain, error_text, Result, ok, err}
use compute_agent.Models.{Time, Workload}

pub data TaskType : Type 0 where
  apply_workload delete_workload reconcile : TaskType
  other_task : String → TaskType

abbrev pub task_type_text : TaskType → String
task_type_text apply_workload = "apply_workload"
task_type_text delete_workload = "delete_workload"
task_type_text reconcile = "reconcile"
task_type_text (other_task s) = s

pub data TaskStatus : Type 0 where
  pending running completed failed : TaskStatus

abbrev pub is_pending : TaskStatus → Bool
is_pending pending = true
is_pending running = false
is_pending completed = false
is_pending failed = false

abbrev pub is_running : TaskStatus → Bool
is_running pending = false
is_running running = true
is_running completed = false
is_running failed = false

abbrev pub is_completed : TaskStatus → Bool
is_completed pending = false
is_completed running = false
is_completed completed = true
is_completed failed = false

abbrev pub is_failed : TaskStatus → Bool
is_failed pending = false
is_failed running = false
is_failed completed = false
is_failed failed = true

-- `==` on two states.
unfoldable pub same_status : TaskStatus → TaskStatus → Bool
same_status pending s = is_pending s
same_status running s = is_running s
same_status completed s = is_completed s
same_status failed s = is_failed s

-- What the callers store in `Result`, an `interface{}`.
pub data Payload : Type 0 where
  no_payload : Payload
  workload_payload : Workload → Payload
  id_payload : String → Payload

pub record Task : Type 0 where
  pub id : String
  pub workload_id : String
  pub kind : TaskType
  pub status : TaskStatus
  pub error : String
  pub result : Payload
  pub created_at : Time
  pub started_at : Time
  pub ended_at : Time

pub record TaskSnapshot : Type 0 where
  pub id : String
  pub workload_id : String
  pub kind : TaskType
  pub status : TaskStatus
  pub error : String
  pub created_at : Time
  pub started_at : Time
  pub ended_at : Time

abbrev pub snapshot : Task → TaskSnapshot
snapshot t = record {
  id = t.id;
  workload_id = t.workload_id;
  kind = t.kind;
  status = t.status;
  error = t.error;
  created_at = t.created_at;
  started_at = t.started_at;
  ended_at = t.ended_at;
}

abbrev pub Handler : Type 0
Handler = Task → Option Err

-- A `*Task`
abbrev pub Ref : Type 0
Ref = ℕ

-- `received` holds the tasks that workers took from the channel and have not started, `in_flight`
-- those that they have started and not ended.
pub record Queue : Type 0 where
  pub objects : Ref → Task
  pub handlers : TaskType → Option Handler
  pub tasks : Dict Ref
  pub task_ch : List Ref
  pub received : List Ref
  pub in_flight : List Ref
  pub is_stopping : Bool
  pub max_workers : ℕ

abbrev pub workers_or_default : ℤ → ℕ
workers_or_default (pos n) = if n == 0 then 10 else n
workers_or_default (negsuc n) = 10

-- `objects` are the tasks that callers will make.
unfoldable pub new_queue : ℤ → (Ref → Task) → Queue
new_queue max_workers objects = record {
  objects = objects;
  handlers = λ _. none;
  tasks = [];
  task_ch = [];
  received = [];
  in_flight = [];
  is_stopping = false;
  max_workers = workers_or_default max_workers;
}

-- The capacity of the channel.
abbrev pub capacity : Queue → ℕ
capacity q = q.max_workers * 2

abbrev same_type : TaskType → TaskType → Bool
same_type a b = str_eq (task_type_text a) (task_type_text b)

unfoldable pub set_object : Ref → Task → Queue → Queue
set_object r t q = record q { objects = λ s. if s == r then t else q.objects s }

unfoldable pub register_handler : TaskType → Handler → Queue → Queue
register_handler k h q = record q { handlers = λ j. if same_type j k then some h else q.handlers j }

unfoldable pub stop : Queue → Queue
stop q = record q { is_stopping = true }

-- `picks_stop` is the choice of `select` where the channel has room and the queue is stopping.
unfoldable pub submit : Bool → Time → Ref → Queue → Option String × Queue
unfolding set_object
submit picks_stop now r q =
    let t = q.objects r in
    if is_blank t.id
    then (some "task ID cannot be empty", q)
    else (let q1 = set_object r (record t { status = pending; created_at = now }) q in
        let q2 = record q1 { tasks = Dict.put t.id r q1.tasks } in
        let q3 = record q2 { tasks = Dict.remove t.id q2.tasks } in
        if ltb (length q.task_ch) (capacity q) && not (q.is_stopping && picks_stop)
        then (none, record q2 { task_ch = q2.task_ch ++ r ∷ [] })
        else if q.is_stopping
        then (some "task queue is stopping", q3)
        else (some "task queue is full, try again later", q3))

-- A worker that is free takes the oldest task of the channel, the first argument.
unfoldable pub receive_task : List Ref → Queue → Queue
receive_task [] q = q
receive_task (r ∷ rs) q =
    if ltb (length q.received + length q.in_flight) q.max_workers
    then record q { task_ch = rs; received = q.received ++ r ∷ [] }
    else q

-- The worker starts a task that it took, up to the call of the handler.
unfoldable pub start_task : Time → Ref → Queue → Queue
unfolding set_object
start_task now r q =
    let q' = set_object r (record (q.objects r) { status = running; started_at = now }) q in
    if any (λ s. s == r) q.received
    then record q' { received = filter (λ s. not (s == r)) q.received; in_flight = r ∷ q.in_flight }
    else q

-- What `executeTask` writes into the task at its end.
unfoldable pub end_task : Option Handler → Time → Task → Task
end_task none now t = record t {
  status = failed;
  error = "no handler registered for task type: " <> task_type_text t.kind;
  ended_at = now;
}
end_task (some h) now t = elim (h t) [
  | none ↦ record t { status = completed; ended_at = now }
  | some e ↦ record t { status = failed; error = error_text e; ended_at = now }
]

-- The rest of `executeTask`, for a task in flight; its worker is free then.
unfoldable pub finish_task : Time → Ref → Queue → Queue
unfolding set_object end_task
finish_task now r q =
    let t = q.objects r in
    let q' = set_object r (end_task (q.handlers t.kind) now t) q in
    record q' { in_flight = filter (λ s. not (s == r)) q.in_flight }

abbrev pub get_task : String → Queue → Option Ref
get_task id q = Dict.get id q.tasks

unfoldable pub get_task_status : String → Queue → Result (TaskStatus × String)
get_task_status id q = elim (get_task id q) [
  | none ↦ err (plain ("task not found: " <> id))
  | some r ↦ ok ((q.objects r).status, (q.objects r).error)
]

-- One tick of `WaitForTask`: the task if it has ended.
unfoldable pub poll_task : String → Queue → Result (Option Ref)
poll_task id q = elim (get_task id q) [
  | none ↦ err (plain ("task not found: " <> id))
  | some r ↦
      let s = (q.objects r).status in
      ok (if same_status s completed || same_status s failed then some r else none)
]

abbrev pub matches : Option TaskStatus → TaskStatus → Bool
matches none s = true
matches (some wanted) s = same_status wanted s

-- The empty status, which lists all, is `none`.
unfoldable pub list_tasks : Option TaskStatus → Queue → List Ref
list_tasks status q = filter (λ r. matches status (q.objects r).status) (Dict.values q.tasks)

unfoldable pub list_task_snapshots : Option TaskStatus → Queue → List TaskSnapshot
unfolding list_tasks
list_task_snapshots status q = map (λ r. snapshot (q.objects r)) (list_tasks status q)

abbrev pub has_ended : TaskStatus → Bool
has_ended s = same_status s completed || same_status s failed

abbrev pub is_old : Time → Duration → Task → Bool
is_old now ttl t = has_ended t.status && ltb_ℤ ttl (sub_time now t.ended_at)

-- The loop of `CleanupOldTasks`: what stays and how many were removed.
unfoldable pub sweep_tasks : (Ref → Bool) → Dict Ref → Dict Ref × ℕ
sweep_tasks old [] = ([], 0)
sweep_tasks old ((k, r) ∷ m) =
    let (rest, n) = sweep_tasks old m in if old r then (rest, suc n) else ((k, r) ∷ rest, n)

unfoldable pub cleanup_old_tasks : Time → Duration → Queue → ℕ × Queue
unfolding sweep_tasks
cleanup_old_tasks now ttl q =
    let (rest, n) = sweep_tasks (λ r. is_old now ttl (q.objects r)) q.tasks in
    (n, record q { tasks = rest })

pub record QueueStats : Type 0 where
  pub total_tasks : ℕ
  pub pending_tasks : ℕ
  pub running_tasks : ℕ
  pub completed_tasks : ℕ
  pub failed_tasks : ℕ

-- One turn of the loop of `GetStats`.
abbrev pub count_status : TaskStatus → QueueStats → QueueStats
count_status pending s = record s { pending_tasks = suc s.pending_tasks }
count_status running s = record s { running_tasks = suc s.running_tasks }
count_status completed s = record s { completed_tasks = suc s.completed_tasks }
count_status failed s = record s { failed_tasks = suc s.failed_tasks }

unfoldable pub count_tasks : (Ref → Task) → List Ref → QueueStats → QueueStats
count_tasks o [] s = s
count_tasks o (r ∷ rs) s = count_tasks o rs (count_status (o r).status s)

abbrev pub no_stats : ℕ → QueueStats
no_stats total = record {
  total_tasks = total;
  pending_tasks = 0;
  running_tasks = 0;
  completed_tasks = 0;
  failed_tasks = 0;
}

unfoldable pub get_stats : Queue → QueueStats
unfolding count_tasks
get_stats q = count_tasks q.objects (Dict.values q.tasks) (no_stats (length q.tasks))

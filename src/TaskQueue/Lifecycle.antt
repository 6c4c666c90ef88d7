-- ===== src/TaskQueue/Lifecycle.antt =====
-- What the operations of the task queue do to the tasks, one after the other (internal/task/queue.go).
use compute_agent.Base.{
  ◌+◌, ◌≤◌, ◌==◌, ◌≡◌, ◌⊎◌, ◌++◌, inl, inr, ap, ltb, Bool-cases, refl, Bool, true, false, Option,
  List, [], ◌∷◌, length, length-append, arith, ==_iff, if◌then◌else◌,
}
use compute_agent.Base.Int.{ℤ}
use compute_agent.Clock.{Duration}
use compute_agent.Models.{Time}
use compute_agent.TaskQueue.Refs.{
  Absent, AllDistinct, HaveStatus, HaveStatus-set, HaveStatus-Absent, without, without-Absent,
  AllDistinct-without, HaveStatus-without, length-without, stands, HaveStatus-stands,
  length-without-stands, without-append, append-move, HaveStatus-last, AllDistinct-last,
}
use compute_agent.TaskQueue.{
  Ref, Task, TaskType, TaskStatus, pending, running, completed, failed, Handler, Queue, new_queue,
  capacity, set_object, register_handler, stop, submit, receive_task, start_task, finish_task,
  end_task, cleanup_old_tasks,
}

-- A call of the queue, or a step of one of its workers.
pub data Event : Type 0 where
  registers : TaskType → Handler → Event
  submits : Bool → Time → Ref → Event
  receives : Event
  starts : Time → Ref → Event
  finishes : Time → Ref → Event
  cleans_up : Time → Duration → Event
  stops : Event

unfoldable pub step : Event → Queue → Queue
step (registers k h) q = register_handler k h q
step (submits picks_stop now r) q = (submit picks_stop now r q).1
step receives q = receive_task q.task_ch q
step (starts now r) q = start_task now r q
step (finishes now r) q = finish_task now r q
step (cleans_up now ttl) q = (cleanup_old_tasks now ttl q).1
step stops q = stop q

-- The tasks that a worker took or that are in the channel, the oldest first.
abbrev pub waiting : Queue → List Ref
waiting q = q.received ++ q.task_ch

-- Callers submit a task that is neither waiting nor in flight, and a worker ends a task in flight.
abbrev pub IsAllowed : Event → Queue → Type 0
IsAllowed (registers k h) q = Unit
IsAllowed (submits picks_stop now r) q = Absent r (waiting q) × Absent r q.in_flight
IsAllowed receives q = Unit
IsAllowed (starts now r) q = Unit
IsAllowed (finishes now r) q = (q.objects r).status ≡ running
IsAllowed (cleans_up now ttl) q = Unit
IsAllowed stops q = Unit

-- The queues that a run of the program can meet.
pub data Reachable : Queue → Type 0 where
  created : (max_workers : ℤ) (objects : Ref → Task) → Reachable (new_queue max_workers objects)
  stepped : {q : Queue} (e : Event) → IsAllowed e q → Reachable q → Reachable (step e q)

abbrev pub IsOrderly : Queue → Type 0
IsOrderly q =
    HaveStatus pending q.objects (waiting q)
    × HaveStatus running q.objects q.in_flight
    × AllDistinct (waiting q)
    × AllDistinct q.in_flight
    × (length q.task_ch ≤ capacity q)
    × (length q.received + length q.in_flight ≤ q.max_workers)

-- Whether a task may go from one status to another.
abbrev pub may_become : TaskStatus → TaskStatus → Bool
may_become pending running = true
may_become running completed = true
may_become running failed = true
may_become s t = false

abbrev pub is_submission_of : Ref → Event → Bool
is_submission_of r (submits picks_stop now s) = s == r
is_submission_of r e = false

submit-IsOrderly :
    (picks_stop : Bool) (now : Time) (r : Ref) (q : Queue)
    → Absent r (waiting q)
    → Absent r q.in_flight
    → IsOrderly q
    → IsOrderly (submit picks_stop now r q).1
unfolding submit set_object
submit-IsOrderly picks_stop now r q c f h =
    let t = record (q.objects r) { status = pending; created_at = now } in
    let o : Ref → Task = λ x. if x == r then t else q.objects x in
    ground (
      arith,
      HaveStatus-set pending q.objects r t (waiting q) c h.0,
      HaveStatus-last pending o q.received q.task_ch r,
      HaveStatus-set running q.objects r t q.in_flight f h.1,
      AllDistinct-last q.received q.task_ch r c h.2,
      length-append q.task_ch (r ∷ []),
      ==_iff r r,
    )

receive_task-IsOrderly :
    (rs : List Ref) (q : Queue)
    → IsOrderly (record q { task_ch = rs })
    → IsOrderly (receive_task rs (record q { task_ch = rs }))
unfolding receive_task
receive_task-IsOrderly [] q h = h
receive_task-IsOrderly (r ∷ rs) q h =
    elim (Bool-cases (ltb (length q.received + length q.in_flight) q.max_workers)) [
      | inl e ↦
          rw (e, append-move q.received r rs)
            (
              h.0,
              h.1,
              h.2,
              h.3,
              ground (arith, h.4),
              ground (arith, e, length-append q.received (r ∷ [])),
            )
      | inr e ↦ rw e h
    ]

start_task-IsOrderly :
    (now : Time) (r : Ref) (q : Queue) → IsOrderly q → IsOrderly (start_task now r q)
unfolding start_task set_object
start_task-IsOrderly now r q h = elim (Bool-cases (stands r q.received)) [
  | inr e ↦ rw e h
  | inl e ↦
      let t = record (q.objects r) { status = running; started_at = now } in
      let p = HaveStatus-stands pending q.objects r q.received q.task_ch e h.0 in
      let left = without-append r q.received q.task_ch e h.2 in
      rw (e, ← left)
        (ground (
          arith,
          HaveStatus-set pending q.objects r t (without r (waiting q))
              (without-Absent r (waiting q))
              (HaveStatus-without pending q.objects r (waiting q) h.0),
          HaveStatus-Absent running q.objects r q.in_flight h.1 (λ same. ground (arith, p, same)),
          HaveStatus-set running q.objects r t q.in_flight,
          AllDistinct-without r (waiting q) h.2,
          length-without-stands r q.received e,
          ==_iff r r,
        ))
]

finish_task-IsOrderly :
    (now : Time) (r : Ref) (q : Queue)
    → (q.objects r).status ≡ running
    → IsOrderly q
    → IsOrderly (finish_task now r q)
unfolding finish_task set_object
finish_task-IsOrderly now r q e h =
    let t = end_task (q.handlers (q.objects r).kind) now (q.objects r) in
    let rest = without r q.in_flight in
    ground (
      arith,
      HaveStatus-set pending q.objects r t (waiting q),
      HaveStatus-Absent pending q.objects r (waiting q) h.0,
      HaveStatus-set running q.objects r t rest (without-Absent r q.in_flight)
          (HaveStatus-without running q.objects r q.in_flight h.1),
      AllDistinct-without r q.in_flight h.3,
      length-without r q.in_flight,
    )

-- Every step keeps it so that the waiting tasks, in the channel or taken from it, are pending and
-- those in flight are running, none of them stands twice, the channel holds at most its capacity and
-- no more tasks are taken or in flight than there are workers.
pub step-IsOrderly : (e : Event) (q : Queue) → IsAllowed e q → IsOrderly q → IsOrderly (step e q)
unfolding step register_handler cleanup_old_tasks stop
step-IsOrderly (registers k f) q a h = h
step-IsOrderly (submits picks_stop now r) q a h = submit-IsOrderly picks_stop now r q a.0 a.1 h
step-IsOrderly receives q a h = receive_task-IsOrderly q.task_ch q h
step-IsOrderly (starts now r) q a h = start_task-IsOrderly now r q h
step-IsOrderly (finishes now r) q a h = finish_task-IsOrderly now r q a h
step-IsOrderly (cleans_up now ttl) q a h = h
step-IsOrderly stops q a h = h

-- In every queue that a run can meet, in which callers submit only tasks that neither wait nor are
-- in flight, the waiting tasks, in the channel or taken from it by a worker, are pending and those in
-- flight are running, none of them stands twice, the channel holds at most its capacity and no more
-- tasks are taken or in flight than there are workers.
pub Reachable-IsOrderly : {q : Queue} → Reachable q → IsOrderly q
unfolding new_queue
Reachable-IsOrderly (created n o) = ground arith
Reachable-IsOrderly (stepped e a r) = step-IsOrderly e _ a (Reachable-IsOrderly r)

end_task-may_become :
    (h : Option Handler) (now : Time) (t : Task)
    → may_become running (end_task h now t).status ≡ true
unfolding end_task
end_task-may_become h now t = ground arith

receive_task-objects : (rs : List Ref) (q : Queue) → (receive_task rs q).objects ≡ q.objects
unfolding receive_task
receive_task-objects [] q = refl
receive_task-objects (r ∷ rs) q = ground arith

start_task-may_become :
    (now : Time) (s : Ref) (q : Queue) (r : Ref)
    → HaveStatus pending q.objects (waiting q)
    → ((start_task now s q).objects r ≡ q.objects r)
      ⊎ (may_become (q.objects r).status ((start_task now s q).objects r).status ≡ true)
unfolding start_task set_object
start_task-may_become now s q r h = elim (Bool-cases (stands s q.received)) [
  | inr e ↦ rw e (inl refl)
  | inl e ↦
      let p = HaveStatus-stands pending q.objects s q.received q.task_ch e h in
      rw e (ground (arith, ==_iff r s, p))
]

-- A step that is allowed in an orderly queue changes a task that is not submitted in it only to
-- start a pending task, which runs then, or to end a running one, which has completed or failed
-- then.
pub step-may_become :
    (e : Event) (q : Queue) (r : Ref)
    → IsAllowed e q
    → IsOrderly q
    → is_submission_of r e ≡ false
    → ((step e q).objects r ≡ q.objects r)
      ⊎ (may_become (q.objects r).status ((step e q).objects r).status ≡ true)
unfolding step register_handler cleanup_old_tasks stop submit finish_task set_object
step-may_become (registers k f) q r a h n = inl refl
step-may_become (submits picks_stop now s) q r a h n = ground (arith, ==_iff r s, ==_iff s r)
step-may_become receives q r a h n = inl (ap (λ o. o r) (receive_task-objects q.task_ch q))
step-may_become (starts now s) q r a h n = start_task-may_become now s q r h.0
step-may_become (finishes now s) q r a h n =
    ground
      (arith, ==_iff r s, end_task-may_become (q.handlers (q.objects s).kind) now (q.objects s))
step-may_become (cleans_up now ttl) q r a h n = inl refl
step-may_become stops q r a h n = inl refl

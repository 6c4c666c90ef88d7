-- ===== src/Examples/Tasks.antt =====
-- Examples of the task queue (internal/task/queue.go).
use compute_agent.Base.{◌+◌, ◌<◌, ◌≡◌, ◌↔◌, ◌⊎◌, refl, true, false, ◌&&◌, none, [], ◌∷◌, length}
use compute_agent.Base.Int.{pos}
use compute_agent.Base.Dict
use compute_agent.Base.Dict.{Distinct}
use compute_agent.TaskQueue.{
  Ref, Task, apply_workload, no_payload, pending, running, completed, failed, Queue, new_queue,
  submit, capacity, get_task, get_stats, is_old, cleanup_old_tasks,
}
use compute_agent.TaskQueue.Lifecycle.{
  submits, receives, starts, step, created, stepped, IsOrderly, Reachable-IsOrderly,
  step-may_become, may_become,
}
use compute_agent.TaskQueue.Submission.{submit_iff, IsOutcome}
use compute_agent.TaskQueue.Cleanup.{cleanup_old_tasks-get_task, unless_old}
use compute_agent.TaskQueue.Stats.{get_stats-list_tasks, listed}

abbrev pub job : Task
job = record {
  id = "apply-web-1";
  workload_id = "web";
  kind = apply_workload;
  status = pending;
  error = "";
  result = no_payload;
  created_at = 0;
  started_at = 0;
  ended_at = 0;
}

abbrev pub jobs : Ref → Task
jobs r = job

abbrev pub idle : Queue
idle = record {
  objects = jobs;
  handlers = λ _. none;
  tasks = [];
  task_ch = [];
  received = [];
  in_flight = [];
  is_stopping = false;
  max_workers = 1;
}

abbrev waiting : Queue
waiting = record idle { tasks = ("apply-web-1", 0) ∷ []; task_ch = 0 ∷ [] }

Reachable-IsOrderly_example :
    IsOrderly
      (step (starts 4 0) (step receives (step (submits false 3 0) (new_queue (pos 1) jobs))))
unfolding new_queue
Reachable-IsOrderly_example = Reachable-IsOrderly (
    stepped (starts 4 0) tt
      (stepped receives tt (stepped (submits false 3 0) (tt, tt) (created (pos 1) jobs))))

abbrev taken : Queue
taken = step receives (step (submits false 3 0) idle)

step-may_become_example :
    ((step (starts 4 0) taken).objects 0 ≡ taken.objects 0)
    ⊎ (may_become (taken.objects 0).status ((step (starts 4 0) taken).objects 0).status ≡ true)
unfolding new_queue
step-may_become_example =
    step-may_become (starts 4 0) taken 0 tt
      (Reachable-IsOrderly
        (stepped receives tt (stepped (submits false 3 0) (tt, tt) (created (pos 1) jobs))))
      refl

submit_iff_example :
    (((submit false 3 0 idle).0 ≡ none)
      ↔ ((length idle.task_ch < capacity idle) × ((idle.is_stopping && false) ≡ false)))
    × IsOutcome (submit false 3 0 idle).0 0 idle (submit false 3 0 idle).1
submit_iff_example = submit_iff false 3 0 idle refl

-- A task that ended ten seconds after the start of the clock.
abbrev pub ended : Queue
ended = record idle {
  objects = λ r. record job { status = completed; ended_at = 10 };
  tasks = ("apply-web-1", 0) ∷ [];
}

cleanup_old_tasks-get_task_example :
    let q' = (cleanup_old_tasks 100 (pos 50) ended).1 in
    (get_task "apply-web-1" q'
      ≡ unless_old (λ r. is_old 100 (pos 50) (ended.objects r)) (get_task "apply-web-1" ended))
    × Distinct q'.tasks
    × (q'.objects ≡ ended.objects)
    × ((cleanup_old_tasks 100 (pos 50) ended).0 + length q'.tasks ≡ 1)
unfolding Dict.get
cleanup_old_tasks-get_task_example =
    cleanup_old_tasks-get_task 100 (pos 50) ended "apply-web-1" (refl, tt)

get_stats-list_tasks_example :
    let s = get_stats waiting in
    (s.total_tasks ≡ length waiting.tasks)
    × (s.pending_tasks ≡ listed pending waiting)
    × (s.running_tasks ≡ listed running waiting)
    × (s.completed_tasks ≡ listed completed waiting)
    × (s.failed_tasks ≡ listed failed waiting)
    × (s.pending_tasks + s.running_tasks + s.completed_tasks + s.failed_tasks ≡ s.total_tasks)
get_stats-list_tasks_example = get_stats-list_tasks waiting

-- ===== src/TaskQueue/Stats.antt =====
-- What `GetStats` and `ListTasks` of internal/task/queue.go count.
use compute_agent.Base.{
  ℕ, ◌+◌, ◌≡◌, Bool, refl, List, [], ◌∷◌, length, count, length-filter, arith, some,
}
use compute_agent.Base.Dict
use compute_agent.Base.Dict.{Dict}
use compute_agent.TaskQueue.{
  Ref, Task, TaskStatus, pending, running, completed, failed, same_status, Queue, QueueStats,
  count_status, count_tasks, no_stats, get_stats, list_tasks,
}

-- The counters, without the total.
abbrev counted : QueueStats → ℕ
counted s = s.pending_tasks + s.running_tasks + s.completed_tasks + s.failed_tasks

abbrev have : (Ref → Task) → (TaskStatus → Bool) → List Ref → ℕ
have o p = count (λ r. p (o r).status)

length-values : (m : Dict Ref) → length (Dict.values m) ≡ length m
length-values [] = refl
length-values ((k, r) ∷ m) = omega (arith, length-values m)

record CountsTasks (o : Ref → Task) (rs : List Ref) (s s' : QueueStats) : Type 0 where
  total : s'.total_tasks ≡ s.total_tasks
  pending_lem : s'.pending_tasks ≡ s.pending_tasks + have o (same_status pending) rs
  running_lem : s'.running_tasks ≡ s.running_tasks + have o (same_status running) rs
  completed_lem : s'.completed_tasks ≡ s.completed_tasks + have o (same_status completed) rs
  failed_lem : s'.failed_tasks ≡ s.failed_tasks + have o (same_status failed) rs
  sum : counted s' ≡ counted s + length rs

count_tasks-CountsTasks :
    (o : Ref → Task) (rs : List Ref) (s : QueueStats) → CountsTasks o rs s (count_tasks o rs s)
unfolding count_tasks same_status
count_tasks-CountsTasks o [] s = record {
  total = refl;
  pending_lem = omega arith;
  running_lem = omega arith;
  completed_lem = omega arith;
  failed_lem = omega arith;
  sum = omega arith;
}
count_tasks-CountsTasks o (r ∷ rs) s =
    let c = count_tasks-CountsTasks o rs (count_status (o r).status s) in
    record {
      total = ground (arith, c.total);
      pending_lem = ground (arith, c.pending_lem);
      running_lem = ground (arith, c.running_lem);
      completed_lem = ground (arith, c.completed_lem);
      failed_lem = ground (arith, c.failed_lem);
      sum = ground (arith, c.sum);
    }

abbrev pub listed : TaskStatus → Queue → ℕ
listed s q = length (list_tasks (some s) q)

listed-have :
    (q : Queue) (s : TaskStatus) → listed s q ≡ have q.objects (same_status s) (Dict.values q.tasks)
unfolding list_tasks
listed-have q s = length-filter (λ r. same_status s (q.objects r).status) (Dict.values q.tasks)

-- Each counter is the number of tasks that the list for its status has, the total is the number of
-- all tasks, and the counters add up to it.
pub get_stats-list_tasks :
    (q : Queue)
    → let s = get_stats q in
      (s.total_tasks ≡ length q.tasks)
      × (s.pending_tasks ≡ listed pending q)
      × (s.running_tasks ≡ listed running q)
      × (s.completed_tasks ≡ listed completed q)
      × (s.failed_tasks ≡ listed failed q)
      × (s.pending_tasks + s.running_tasks + s.completed_tasks + s.failed_tasks ≡ s.total_tasks)
unfolding get_stats
get_stats-list_tasks q =
    let rs = Dict.values q.tasks in
    let c = count_tasks-CountsTasks q.objects rs (no_stats (length q.tasks)) in
    (
      c.total,
      omega (arith, c.pending_lem, listed-have q pending),
      omega (arith, c.running_lem, listed-have q running),
      omega (arith, c.completed_lem, listed-have q completed),
      omega (arith, c.failed_lem, listed-have q failed),
      omega (arith, c.sum, c.total, length-values q.tasks),
    )

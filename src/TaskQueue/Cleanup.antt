-- ===== src/TaskQueue/Cleanup.antt =====
-- What `CleanupOldTasks` of internal/task/queue.go removes.
use compute_agent.Base.{
  ℕ, ◌+◌, ◌<◌, ◌≡◌, ◌⊎◌, refl, Bool, true, [], ◌∷◌, length, arith, Option, none, some,
  if◌then◌else◌, String, eq_iff,
}
use compute_agent.Base.Int.{pos}
use compute_agent.Base.Dict
use compute_agent.Base.Dict.{Dict, Distinct}
use compute_agent.Clock.{sub_time-above, Duration}
use compute_agent.Models.{Time}
use compute_agent.TaskQueue.{
  Ref, Task, completed, failed, same_status, is_old, Queue, sweep_tasks, cleanup_old_tasks,
  get_task,
}

abbrev pub unless_old : (Ref → Bool) → Option Ref → Option Ref
unless_old old none = none
unless_old old (some r) = if old r then none else some r

sweep_tasks-get :
    (old : Ref → Bool) (id : String) (m : Dict Ref)
    → Distinct m
    → Dict.get id (sweep_tasks old m).0 ≡ unless_old old (Dict.get id m)
unfolding sweep_tasks Dict.get
sweep_tasks-get old id [] d = refl
sweep_tasks-get old id ((k, r) ∷ m) d = ground (arith, eq_iff k id, sweep_tasks-get old id m d.1)

sweep_tasks-Distinct :
    (old : Ref → Bool) (m : Dict Ref) → Distinct m → Distinct (sweep_tasks old m).0
unfolding sweep_tasks
sweep_tasks-Distinct old [] d = tt
sweep_tasks-Distinct old ((k, r) ∷ m) d =
    ground (arith, sweep_tasks-Distinct old m d.1, sweep_tasks-get old k m d.1)

sweep_tasks-count :
    (old : Ref → Bool) (m : Dict Ref)
    → (sweep_tasks old m).1 + length (sweep_tasks old m).0 ≡ length m
unfolding sweep_tasks
sweep_tasks-count old [] = refl
sweep_tasks-count old ((k, r) ∷ m) = ground (arith, sweep_tasks-count old m)

-- If no identifier stands twice, a task with an identifier stays exactly if it has not ended or its
-- end is not older than `ttl`; identifiers stay apart, no task is changed, and the answer is the
-- number of tasks that went.
pub cleanup_old_tasks-get_task :
    (now : Time) (ttl : Duration) (q : Queue) (id : String)
    → Distinct q.tasks
    → let q' = (cleanup_old_tasks now ttl q).1 in
      (get_task id q' ≡ unless_old (λ r. is_old now ttl (q.objects r)) (get_task id q))
      × Distinct q'.tasks
      × (q'.objects ≡ q.objects)
      × ((cleanup_old_tasks now ttl q).0 + length q'.tasks ≡ length q.tasks)
unfolding cleanup_old_tasks
cleanup_old_tasks-get_task now ttl q id d =
    let old : Ref → Bool = λ r. is_old now ttl (q.objects r) in
    (
      sweep_tasks-get old id q.tasks d,
      sweep_tasks-Distinct old q.tasks d,
      refl,
      sweep_tasks-count old q.tasks,
    )

is_old-ended :
    (now : Time) (n : ℕ) (t : Task)
    → is_old now (pos n) t ≡ true
    → ((t.status ≡ completed) ⊎ (t.status ≡ failed)) × (t.ended_at + n < now)
unfolding same_status
is_old-ended now n t h = ground (arith, sub_time-above now t.ended_at n)

-- If no identifier stands twice and the limit `n` is not negative, a task that the sweep forgets
-- has completed or failed, and ended more than `n` before it.
pub cleanup_old_tasks-removed :
    (now : Time) (n : ℕ) (q : Queue) (id : String) (r : Ref)
    → Distinct q.tasks
    → get_task id q ≡ some r
    → get_task id (cleanup_old_tasks now (pos n) q).1 ≡ none
    → (((q.objects r).status ≡ completed) ⊎ ((q.objects r).status ≡ failed))
      × ((q.objects r).ended_at + n < now)
cleanup_old_tasks-removed now n q id r d g e =
    ground
      (arith, is_old-ended now n (q.objects r), (cleanup_old_tasks-get_task now (pos n) q id d).0)

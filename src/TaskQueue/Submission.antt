-- ===== src/TaskQueue/Submission.antt =====
-- What `Submit` of internal/task/queue.go answers and leaves behind.
use compute_agent.Base.{
  ◌<◌, ◌≡◌, ◌↔◌, Bool, false, ◌&&◌, [], ◌∷◌, ◌++◌, length, arith, Option, none, some, is_blank,
  String, ==_iff,
}
use compute_agent.Base.Dict
use compute_agent.Base.Dict.{Dict}
use compute_agent.Models.{Time}
use compute_agent.TaskQueue.{Ref, pending, Queue, capacity, submit, get_task, set_object}

-- What an accepted task leaves: it is known and pending, and waits behind all others.
abbrev pub IsAccepted : Ref → Queue → Queue → Type 0
IsAccepted r q q' =
    (get_task (q.objects r).id q' ≡ some r)
    × ((q'.objects r).status ≡ pending)
    × (q'.task_ch ≡ q.task_ch ++ r ∷ [])

-- What a refused task leaves: its identifier is unknown, and nothing new waits.
abbrev pub IsRefused : Ref → Queue → Queue → Type 0
IsRefused r q q' = (get_task (q.objects r).id q' ≡ none) × (q'.task_ch ≡ q.task_ch)

abbrev pub IsOutcome : Option String → Ref → Queue → Queue → Type 0
IsOutcome none = IsAccepted
IsOutcome (some e) = IsRefused

-- A task with an identifier is accepted exactly if the channel has room and `select` does not take
-- the stop of the queue; accepted, it is known, pending and the last to wait; refused, its
-- identifier is unknown, and nothing new waits.
pub submit_iff :
    (picks_stop : Bool) (now : Time) (r : Ref) (q : Queue)
    → is_blank (q.objects r).id ≡ false
    → (((submit picks_stop now r q).0 ≡ none)
        ↔ ((length q.task_ch < capacity q) × ((q.is_stopping && picks_stop) ≡ false)))
      × IsOutcome (submit picks_stop now r q).0 r q (submit picks_stop now r q).1
unfolding submit set_object
submit_iff picks_stop now r q h =
    let id = (q.objects r).id in
    ground (
      arith,
      ==_iff r r,
      Dict.get-put_self id r q.tasks,
      Dict.get-remove_self id (Dict.put id r q.tasks),
    )

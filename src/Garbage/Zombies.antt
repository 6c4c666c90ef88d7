-- ===== src/Garbage/Zombies.antt =====
-- What the collection of zombies does where a runtime cannot tell the state of a workload
-- (internal/garbage/collector.go, `cleanupZombies`).
use compute_agent.Base.{true, ◌≡◌, refl, none, ◌∷◌}
use compute_agent.Base.Dict.{get-remove_self}
use compute_agent.Errors.{Err, err}
use compute_agent.Models.{Workload}
use compute_agent.State
use compute_agent.Workload.World.{
  Env, World, reads_status, get_runtime, read_status, delete_workload, update,
}
use compute_agent.Garbage.{check_zombie}

-- If the runtime of a workload is there and answers with an error, whatever it is, when it is asked
-- for the state, and the next transaction does not fail, neither the workload nor its status is in
-- the store afterwards, and no other call is made.
pub check_zombie-forgets :
    (env : Env) (w : Workload) (e : Err) (world : World)
    → env.has_runtime w.kind ≡ true
    → env.status_answer (reads_status w.kind w.id ∷ world.calls) ≡ err e
    → env.transaction_error world.transactions ≡ none
    → let after = (check_zombie env w world).1 in
      (State.get_workload w.id after.buckets ≡ none)
      × (State.get_status w.id after.buckets ≡ none)
      × (after.calls ≡ reads_status w.kind w.id ∷ world.calls)
unfolding check_zombie get_runtime read_status delete_workload update State.delete_workload
check_zombie-forgets env w e world rt answer stored =
    rw (rt, answer, stored)
      (
        get-remove_self w.id world.buckets.workloads,
        get-remove_self w.id world.buckets.statuses,
        refl,
      )

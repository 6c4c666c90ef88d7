-- ===== src/Grpc/Actions.antt =====
-- internal/grpc/server.go, lines 518 to 578: the history of actions.
pub mod Order
pub mod History
use compute_agent.Base.{
  ℕ, zero, suc, ◌==◌, String, Bool, true, false, not, ◌&&◌, ◌||◌, Option, none, some, List, [], ◌∷◌,
  filter, length, ltb, map, str_eq, is_blank, trim_space, if◌then◌else◌,
}
use compute_agent.Base.Int.{ℤ, pos, negsuc}
use compute_agent.Clock.{is_after}
use compute_agent.TaskQueue.{TaskSnapshot, Queue, list_task_snapshots, task_type_text}
use compute_agent.Grpc.Messages.{ListActionsRequest, AgentAction}
use compute_agent.Grpc.Convert.{unix}
use compute_agent.Grpc.Tasks.{status_text}

-- A filter that is blank lets all pass.
unfoldable pub passes : String → String → Bool
passes wanted value = let w = trim_space wanted in is_blank w || str_eq value w

unfoldable pub is_wanted : ListActionsRequest → TaskSnapshot → Bool
unfolding passes status_text
is_wanted req s =
    passes req.workload_id s.workload_id
    && passes req.action_type (task_type_text s.kind)
    && passes req.status (status_text s.status)

-- The comparison that `sort.Slice` is given.
unfoldable pub comes_before : Bool → TaskSnapshot → TaskSnapshot → Bool
comes_before newest_first a b =
    if newest_first then is_after a.created_at b.created_at else is_after b.created_at a.created_at

-- `sort.Slice` leaves the order of equal elements open; here they keep theirs.
unfoldable pub insert :
    (TaskSnapshot → TaskSnapshot → Bool) → TaskSnapshot → List TaskSnapshot → List TaskSnapshot
insert less s [] = s ∷ []
insert less s (t ∷ ts) = let rest = insert less s ts in if less t s then t ∷ rest else s ∷ t ∷ ts

unfoldable pub sort : (TaskSnapshot → TaskSnapshot → Bool) → List TaskSnapshot → List TaskSnapshot
unfolding insert
sort less [] = []
sort less (s ∷ ss) = insert less s (sort less ss)

abbrev pub take {ℓ} : {A : Type ℓ} → ℕ → List A → List A
take n [] = []
take zero (x ∷ xs) = []
take (suc n) (x ∷ xs) = x ∷ take n xs

-- `req.GetLimit() > 0 && int(req.GetLimit()) < len(filtered)`
unfoldable pub limited {ℓ} : {A : Type ℓ} → ℤ → List A → List A
limited (negsuc n) xs = xs
limited (pos n) xs = if not (n == 0) && ltb n (length xs) then take n xs else xs

unfoldable pub to_action : TaskSnapshot → AgentAction
unfolding unix status_text
to_action s = record {
  task_id = s.id;
  workload_id = s.workload_id;
  action_type = task_type_text s.kind;
  status = status_text s.status;
  error = s.error;
  created_at = unix s.created_at;
  started_at = unix s.started_at;
  ended_at = unix s.ended_at;
}

-- `ListActions`
unfoldable pub list_actions : ListActionsRequest → Option Queue → List AgentAction
unfolding is_wanted comes_before sort limited to_action
list_actions req none = []
list_actions req (some q) = map to_action (
    limited req.limit
      (sort (comes_before req.newest_first) (filter (is_wanted req) (list_task_snapshots none q))))

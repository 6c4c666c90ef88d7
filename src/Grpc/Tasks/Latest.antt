-- ===== src/Grpc/Tasks/Latest.antt =====
-- The search for a workload's latest task in internal/grpc/server.go, `pendingStatusFromTasks`.
use compute_agent.Base.{
  ◌<◌, ◌≡◌, ◌≢◌, ◌⊎◌, inl, inr, refl, String, Option, none, some, List, [], ◌∷◌, All, arith, eq_iff,
}
use compute_agent.TaskQueue.{TaskSnapshot}
use compute_agent.Grpc.Tasks.{latest, later_of}

-- A task that is of another workload, or is the given one, or was made before it.
abbrev pub IsOlder : String → TaskSnapshot → TaskSnapshot → Type 0
IsOlder id s x = (x.workload_id ≢ id) ⊎ ((x ≡ s) ⊎ (x.created_at < s.created_at))

abbrev pub IsIn : {A : Type 0} → A → List A → Type 0
IsIn x [] = ⊥
IsIn x (y ∷ ys) = (y ≡ x) ⊎ IsIn x ys

-- What the search holds before it meets the task.
abbrev IsBefore : TaskSnapshot → Option TaskSnapshot → Type 0
IsBefore s none = Unit
IsBefore s (some b) = (b ≡ s) ⊎ (b.created_at < s.created_at)

latest-kept :
    (id : String) (s : TaskSnapshot) (xs : List TaskSnapshot)
    → All (IsOlder id s) xs
    → latest id (some s) xs ≡ some s
unfolding latest
latest-kept id s [] h = refl
latest-kept id s (x ∷ xs) h = ground (arith, eq_iff x.workload_id id, latest-kept id s xs h.1)

later_of-found :
    (id : String) (s : TaskSnapshot) (best : Option TaskSnapshot)
    → s.workload_id ≡ id
    → IsBefore s best
    → later_of id best s ≡ some s
later_of-found id s none e b = ground (arith, eq_iff s.workload_id id)
later_of-found id s (some k) e (inl same) = ground (arith, eq_iff s.workload_id id)
later_of-found id s (some k) e (inr lt) = ground (arith, eq_iff s.workload_id id)

later_of-IsBefore :
    (id : String) (s x : TaskSnapshot) (best : Option TaskSnapshot)
    → IsBefore s best
    → IsOlder id s x
    → IsBefore s (later_of id best x)
later_of-IsBefore id s x none b (inl other) = ground (arith, eq_iff x.workload_id id)
later_of-IsBefore id s x none b (inr older) = ground (arith, eq_iff x.workload_id id)
later_of-IsBefore id s x (some k) b (inl other) = ground (arith, eq_iff x.workload_id id)
later_of-IsBefore id s x (some k) b (inr older) = ground (arith, eq_iff x.workload_id id)

-- The search finds a task of the workload that is later than all others of it.
pub latest_lem :
    (id : String) (s : TaskSnapshot) (best : Option TaskSnapshot) (xs : List TaskSnapshot)
    → s.workload_id ≡ id
    → IsBefore s best
    → IsIn s xs
    → All (IsOlder id s) xs
    → latest id best xs ≡ some s
unfolding latest
latest_lem id s best [] e b m h = elim m [ ]
latest_lem id s best (x ∷ xs) e b (inl m) h =
    rw (m, later_of-found id s best e b) (latest-kept id s xs h.1)
latest_lem id s best (x ∷ xs) e b (inr m) h =
    latest_lem id s (later_of id best x) xs e (later_of-IsBefore id s x best b h.0) m h.1

-- ===== src/Garbage/Failures.antt =====
-- Which workloads the collection of old failures forgets (internal/garbage/collector.go).
use compute_agent.Base.{
  String, false, ◌≡◌, ◌⊎◌, ◌∙◌, refl, inl, inr, some, List, [], ◌∷◌, str_eq, eq_iff, eq_refl, arith,
  Option-cases, Bool-cases,
}
use compute_agent.Base.Dict
use compute_agent.Base.Dict.{Dict, Distinct, get-remove}
use compute_agent.Clock.{Duration}
use compute_agent.Models.{Time, WorkloadStatus}
use compute_agent.State
use compute_agent.State.{Buckets}
use compute_agent.State.Laws.{IsWellFormed, IsKeyed}
use compute_agent.Workload.World.{Env, World, list_statuses, delete_workload, update, now}
use compute_agent.Garbage.{is_old_failure, delete_old_failures, collect_old_failed_workloads}

-- No status of the list is an old failure of the workload `id`.
abbrev AreLive : Time → Duration → String → List WorkloadStatus → Type 0
AreLive t ttl id [] = Unit
AreLive t ttl id (s ∷ ss) =
    ((is_old_failure t ttl s ≡ false) ⊎ (str_eq s.id id ≡ false)) × AreLive t ttl id ss

-- The workload and its status are found as before.
pub record IsKept (id : String) (b c : Buckets) : Type 0 where
  pub workload : State.get_workload id c ≡ State.get_workload id b
  pub status : State.get_status id c ≡ State.get_status id b

delete_workload-IsKept :
    (env : Env) (id other : String) (w : World)
    → str_eq other id ≡ false
    → IsKept id w.buckets (delete_workload env other w).1.buckets
unfolding delete_workload update State.delete_workload
delete_workload-IsKept env id other w e =
    elim (Option-cases (env.transaction_error w.transactions)) [
      | inl n ↦
          rw n (record { workload = rw (get-remove, e) refl; status = rw (get-remove, e) refl })
      | inr (msg, n) ↦ rw n (record { workload = refl; status = refl })
    ]

IsKept-trans : (id : String) (b c d : Buckets) → IsKept id b c → IsKept id c d → IsKept id b d
IsKept-trans id b c d h k = record {
  workload = k.workload ∙ h.workload;
  status = k.status ∙ h.status;
}

delete_old_failures-IsKept :
    (env : Env) (t : Time) (ttl : Duration) (id : String) (ss : List WorkloadStatus) (w : World)
    → AreLive t ttl id ss
    → IsKept id w.buckets (delete_old_failures env t ttl ss w).1.buckets
unfolding delete_old_failures
delete_old_failures-IsKept env t ttl id [] w live = record { workload = refl; status = refl }
delete_old_failures-IsKept env t ttl id (s ∷ ss) w live =
    elim (Bool-cases (is_old_failure t ttl s)) [
      | inr e ↦ rw e (delete_old_failures-IsKept env t ttl id ss w live.1)
      | inl e ↦
          let w' = (delete_workload env s.id w).1 in
          let apart : str_eq s.id id ≡ false = ground (arith, e, live.0) in
          rw e (
            IsKept-trans id w.buckets w'.buckets _ (delete_workload-IsKept env id s.id w apart)
              (delete_old_failures-IsKept env t ttl id ss w' live.1))
    ]

IsKeyed-tail :
    (k : String) (v : WorkloadStatus) (m : Dict WorkloadStatus)
    → IsKeyed (λ (s : WorkloadStatus). s.id) ((k, v) ∷ m)
    → IsKeyed (λ (s : WorkloadStatus). s.id) m
unfolding Dict.get
IsKeyed-tail k v m h = record {
  distinct = h.distinct.1;
  own = λ j u f. h.own j u (ground (arith, f, eq_iff k j, h.distinct.0));
}

AreLive-values :
    (t : Time) (ttl : Duration) (id : String) (m : Dict WorkloadStatus)
    → IsKeyed (λ (s : WorkloadStatus). s.id) m
    → ((s : WorkloadStatus) → Dict.get id m ≡ some s → is_old_failure t ttl s ≡ false)
    → AreLive t ttl id (Dict.values m)
unfolding Dict.get
AreLive-values t ttl id [] h live = tt
AreLive-values t ttl id ((k, v) ∷ m) h live =
    let own : v.id ≡ k = h.own k v (rw eq_refl refl) in
    let rest =
      AreLive-values t ttl id m (IsKeyed-tail k v m h)
        (λ s e. live s (ground (arith, e, eq_iff k id, h.distinct.0))) in
    elim (Bool-cases (str_eq k id)) [
      | inl e ↦ (inl (live v (rw e refl)), rest)
      | inr e ↦ (inr (rw own e), rest)
    ]

-- In a well-formed store, a workload with a status that is not that of a failure older than the
-- limit at the time of the collection is found after the collection of old failures as before, and
-- so is its status.
pub collect_old_failed_workloads-IsKept :
    (env : Env) (ttl : Duration) (id : String) (s : WorkloadStatus) (w : World)
    → IsWellFormed w.buckets
    → State.get_status id w.buckets ≡ some s
    → is_old_failure (env.clock w.reads) ttl s ≡ false
    → IsKept id w.buckets (collect_old_failed_workloads env ttl w).1.buckets
unfolding collect_old_failed_workloads list_statuses now
collect_old_failed_workloads-IsKept env ttl id s w h e live =
    elim (Option-cases (env.transaction_error w.transactions)) [
      | inl n ↦ rw n (
          delete_old_failures-IsKept env (env.clock w.reads) ttl id (State.list_statuses w.buckets)
            _
            (AreLive-values (env.clock w.reads) ttl id w.buckets.statuses h.statuses
              (λ u f. ground (arith, e, f, live))))
      | inr (msg, n) ↦ rw n (record { workload = refl; status = refl })
    ]

-- ===== src/Garbage/Orphans.antt =====
-- What the collection of orphaned resources deletes (internal/garbage/collector.go).
use compute_agent.Base.{
  suc, ◌+◌, String, true, false, ◌≡◌, refl, sym, subst, inl, inr, none, some, List, [], ◌∷◌, eq_iff,
  arith, Option-cases,
}
use compute_agent.Base.Dict
use compute_agent.Base.Dict.{Dict, Distinct}
use compute_agent.Errors.{Result, ok, err}
use compute_agent.Models.{WorkloadType, container, compose, vm, other_type, Workload}
use compute_agent.State
use compute_agent.State.{Buckets}
use compute_agent.State.Laws.{IsWellFormed}
use compute_agent.Workload.World.{
  Env, World, Call, lists, deletes, pure, ◌>>=◌, on_result, list_workloads, get_runtime, act,
  list_resources,
}
use compute_agent.Workload.Keeps.{Keeps, Keeps-pure, Keeps-if_test, Keeps-bind, Keeps-on_result}
use compute_agent.Workload.Keeps.Calls.{Adds, same, added}
use compute_agent.Garbage.{
  is_stored, plus_done, delete_orphans, collect_orphans_of, collect_orphaned_resources,
}

-- Containers and compose projects.
abbrev pub IsOwned : WorkloadType → Type 0
IsOwned container = Unit
IsOwned compose = Unit
IsOwned vm = ⊥
IsOwned (other_type s) = ⊥

-- The call lists what a runtime has, or deletes a container or compose project that no stored
-- workload has the identifier of.
abbrev pub IsForOrphan : Buckets → Call → Type 0
IsForOrphan b (lists rt) = Unit
IsForOrphan b (deletes rt id) = IsOwned rt × (State.get_workload id b ≡ none)
IsForOrphan b _ = ⊥

-- A workload that is in the dictionary is in the list of its values.
is_stored-values :
    (id : String) (w : Workload) (m : Dict Workload)
    → Dict.get id m ≡ some w
    → w.id ≡ id
    → is_stored (Dict.values m) id ≡ true
unfolding Dict.get
is_stored-values id w [] e f = ground (arith, e)
is_stored-values id w ((k, v) ∷ m) e f = ground (arith, is_stored-values id w m, eq_iff w.id id)

unstored :
    (id : String) (b : Buckets)
    → IsWellFormed b
    → is_stored (State.list_workloads b) id ≡ false
    → State.get_workload id b ≡ none
unstored id b h e = elim (Option-cases (State.get_workload id b)) [
  | inl n ↦ n
  | inr (w, f) ↦ ground (arith, is_stored-values id w b.workloads f (h.workloads.own id w f))
]

-- The store is as it was, and the calls made since are for orphans.
pub record HasSpared (b : Buckets) (old : List Call) (w : World) : Type 0 where
  pub store : w.buckets ≡ b
  pub calls : Adds (IsForOrphan b) old w.calls

module _ (env : Env) (b : Buckets) (old : List Call) (h : IsWellFormed b) where
  delete_orphans-HasSpared :
      (rt : WorkloadType) (ids : List String)
      → IsOwned rt
      → Keeps (HasSpared b old) (delete_orphans env rt (State.list_workloads b) ids)
  unfolding delete_orphans act
  delete_orphans-HasSpared rt [] o = Keeps-pure 0
  delete_orphans-HasSpared rt (id ∷ ids) o =
      let rest = delete_orphans-HasSpared rt ids o in
      Keeps-if_test (is_stored (State.list_workloads b) id) _ _ (λ e. rest)
        (λ e.
          let deleted : Keeps (HasSpared b old) (act env (deletes rt id)) = record {
            at = λ w k. record { store = k.store; calls = added (o, unstored id b h e) k.calls };
          } in
          Keeps-bind _ _ deleted (λ r. Keeps-bind _ _ rest (λ n. Keeps-pure (plus_done r n))))

  list_resources-HasSpared : (rt : WorkloadType) → Keeps (HasSpared b old) (list_resources env rt)
  unfolding list_resources
  list_resources-HasSpared rt = record {
    at = λ w k. record { store = k.store; calls = added tt k.calls };
  }

  delete_unlisted-HasSpared :
      (rt : WorkloadType) (ids : List String)
      → IsOwned rt
      → Keeps (HasSpared b old) (do
        stored ← list_workloads env
        on_result stored (λ ws. delete_orphans env rt ws ids) (λ e. pure 0))
  unfolding list_workloads
  delete_unlisted-HasSpared rt ids o = record {
    at = λ w k.
        let w' = record w { transactions = suc w.transactions } in
        let k' : HasSpared b old w' = record { store = k.store; calls = k.calls } in
        elim (Option-cases (env.transaction_error w.transactions)) [
          | inl e ↦ rw e (
              subst (λ x. HasSpared b old (delete_orphans env rt (State.list_workloads x) ids w').1)
                (sym k.store) ((delete_orphans-HasSpared rt ids o).at w' k'))
          | inr (msg, e) ↦ rw e k'
        ];
  }

  get_runtime-IsOwned :
      (kind rt : WorkloadType) → IsOwned kind → get_runtime env kind ≡ ok rt → IsOwned rt
  unfolding get_runtime
  get_runtime-IsOwned kind rt o e = ground (arith, e, o)

  collect_orphans_of-HasSpared :
      (kind : WorkloadType) → IsOwned kind → Keeps (HasSpared b old) (collect_orphans_of env kind)
  unfolding collect_orphans_of
  collect_orphans_of-HasSpared kind o = go (get_runtime env kind) refl
    where
      go :
          (r : Result WorkloadType)
          → get_runtime env kind ≡ r
          → Keeps (HasSpared b old) (
              on_result r
                (λ rt. do
                  listed ← list_resources env rt
                  on_result listed
                      (λ ids. do
                        stored ← list_workloads env
                        on_result stored (λ ws. delete_orphans env rt ws ids) (λ e. pure 0))
                      (λ e. pure 0))
                (λ e. pure 0))
      go (err e) q = Keeps-pure 0
      go (ok rt) q = Keeps-bind _ _ (list_resources-HasSpared rt) (λ r.
          Keeps-on_result r _ _
            (λ ids. delete_unlisted-HasSpared rt ids (get_runtime-IsOwned kind rt o q))
            (λ e. Keeps-pure 0))

-- In a well-formed store, the collection of orphans only lists what runtimes have and deletes
-- containers and compose projects that no stored workload has the identifier of, and leaves the
-- store as it was.
pub collect_orphaned_resources-HasSpared :
    (env : Env) (w : World)
    → IsWellFormed w.buckets
    → HasSpared w.buckets w.calls (collect_orphaned_resources env w).1
unfolding collect_orphaned_resources
collect_orphaned_resources-HasSpared env w h =
    let m : Keeps (HasSpared w.buckets w.calls) (collect_orphaned_resources env) =
      Keeps-bind _ _ (collect_orphans_of-HasSpared env w.buckets w.calls h container tt) (λ n.
        Keeps-bind _ _ (collect_orphans_of-HasSpared env w.buckets w.calls h compose tt)
          (λ k. Keeps-pure (n + k))) in
    m.at w (record { store = refl; calls = same })

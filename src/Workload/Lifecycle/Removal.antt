-- ===== src/Workload/Lifecycle/Removal.antt =====
-- What a successful `DeleteWorkload` leaves in the store (internal/workload/manager.go).
use compute_agent.Base.{String, ◌<>◌, ◌≡◌, inl, inr, Option, none, some, Option-cases, arith}
use compute_agent.Base.Dict.{get-remove_self}
use compute_agent.Errors.{Err, plain, error_text, Result, ok, err}
use compute_agent.Models.{WorkloadType, Workload}
use compute_agent.State
use compute_agent.State.{Buckets}
use compute_agent.Workload.World.{
  Env, World, M, pure, on_result, get_workload, get_runtime, delete_workload, update, act, deletes,
}
use compute_agent.Workload.Storage.{release_managed_storage}
use compute_agent.Workload.Lifecycle.{delete_from, remove_workload}

-- Neither the workload nor its status is in the store.
pub record IsGone (id : String) (b : Buckets) : Type 0 where
  pub workload : State.get_workload id b ≡ none
  pub status : State.get_status id b ≡ none

module _ (env : Env) (id : String) where
  delete_from-IsGone :
      (rt : WorkloadType) (world : World)
      → (delete_from env id rt world).0 ≡ none
      → IsGone id (delete_from env id rt world).1.buckets
  unfolding delete_from delete_workload update State.delete_workload
  delete_from-IsGone rt world e =
      let w1 = (act env (deletes rt id) world).1 in
      let w2 = (release_managed_storage env id w1).1 in
      elim (Option-cases (env.transaction_error w2.transactions)) [
        | inl n ↦ rw n (record {
          workload = get-remove_self id w2.buckets.workloads;
          status = get-remove_self id w2.buckets.statuses;
        })
        | inr (msg, n) ↦ ground (arith, n, e)
      ]

  runtime-IsGone :
      (r : Result WorkloadType) (f : Err → M (Option Err)) (world : World)
      → ((x : Err) → (f x world).0 ≡ none → ⊥)
      → (on_result r (λ rt. delete_from env id rt) f world).0 ≡ none
      → IsGone id (on_result r (λ rt. delete_from env id rt) f world).1.buckets
  runtime-IsGone (ok rt) f world fails e = delete_from-IsGone rt world e
  runtime-IsGone (err x) f world fails e = absurd (fails x e)

  -- A `DeleteWorkload` that succeeds leaves neither the workload nor its status in the store,
  -- whatever runtime and volume manager answer.
  pub remove_workload-IsGone :
      (world : World)
      → (remove_workload env id world).0 ≡ none
      → IsGone id (remove_workload env id world).1.buckets
  unfolding remove_workload
  remove_workload-IsGone world e = go (get_workload env id world).0 e
    where
      go :
          (r : Result Workload)
          → (on_result r
              (λ w.
                on_result
                  (get_runtime env w.kind)
                  (λ rt. delete_from env id rt)
                  (λ e. pure (some (plain ("runtime not available: " <> error_text e)))))
              (λ e. pure (some (plain ("workload not found: " <> error_text e))))
              (get_workload env id world).1).0
            ≡ none
          → IsGone id
              (on_result r
                (λ w.
                  on_result
                    (get_runtime env w.kind)
                    (λ rt. delete_from env id rt)
                    (λ e. pure (some (plain ("runtime not available: " <> error_text e)))))
                (λ e. pure (some (plain ("workload not found: " <> error_text e))))
                (get_workload env id world).1).1.buckets
      go (ok w) e =
          runtime-IsGone (get_runtime env w.kind) _ (get_workload env id world).1
            (λ x q. ground (arith, q)) e
      go (err x) e = ground (arith, e)

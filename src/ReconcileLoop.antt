-- ===== src/ReconcileLoop.antt =====
-- internal/reconcile/loop.go: one cycle of the reconcile loop. The ticker and logging are left out;
-- the counts and the failures, which the source only logs, are the answer.
use compute_agent.Base.{
  ℕ, suc, ◌+◌, String, ◌<>◌, ◌≡◌, refl, Option, none, some, List, [], ◌∷◌, length, arith,
}
use compute_agent.Errors.{Err, error_text}
use compute_agent.Models.{Workload}
use compute_agent.Workload.World.{Env, World, M, pure, ◌>>=◌, on_result, list_workloads}
use compute_agent.Workload.Reconcile.{reconcile_workload}

-- The count of successes, and the texts of the failures in order.
abbrev pub Cycle : Type 0
Cycle = ℕ × List String

abbrev noted : String → Option Err → Cycle → Cycle
noted id none (n, fs) = (suc n, fs)
noted id (some e) (n, fs) = (n, (id <> ": " <> error_text e) ∷ fs)

module _ (env : Env) where
  unfoldable pub reconcile_each : List Workload → M Cycle
  reconcile_each [] = pure (0, [])
  reconcile_each (w ∷ ws) = do
    e ← reconcile_workload env w.id
    rest ← reconcile_each ws
    pure (noted w.id e rest)

  -- `reconcileAll`
  unfoldable pub reconcile_all : M Cycle
  unfolding reconcile_each
  reconcile_all = do
    r ← list_workloads env
    on_result r (λ ws. reconcile_each ws) (λ e. pure (0, []))

  -- A cycle reconciles every workload that is listed: one that fails does not end it, and each is
  -- counted as a success or noted as a failure.
  pub reconcile_each-total :
      (ws : List Workload) (world : World)
      → (reconcile_each ws world).0.0 + length (reconcile_each ws world).0.1 ≡ length ws
  unfolding reconcile_each
  reconcile_each-total [] world = refl
  reconcile_each-total (w ∷ ws) world =
      let r = reconcile_workload env w.id world in ground (arith, reconcile_each-total ws r.1)

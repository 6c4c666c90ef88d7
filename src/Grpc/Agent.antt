-- ===== src/Grpc/Agent.antt =====
-- What a request runs on: the world of the workload manager, and the queue of tasks if there is
-- one (`Server` of internal/grpc/server.go).
use compute_agent.Base.{Option}
use compute_agent.TaskQueue.{Queue}
use compute_agent.Workload.World.{World, M}

pub record Agent : Type 0 where
  pub world : World
  pub queue : Option Queue

abbrev pub S {ℓ} : Type ℓ → Type ℓ
S A = Agent → A × Agent

infixl 5 ◌>>=◌
abbrev pub pure {ℓ} : {A : Type ℓ} → A → S A
pure x a = (x, a)

abbrev pub ◌>>=◌ {ℓ κ} : {A : Type ℓ} {B : Type κ} → S A → (A → S B) → S B
◌>>=◌ m f a = let (x, a') = m a in f x a'

-- What concerns the manager and the clock alone.
abbrev pub on_world {ℓ} : {A : Type ℓ} → M A → S A
on_world m a = let (x, w) = m a.world in (x, record a { world = w })

-- What is done with the queue, if there is one.
abbrev pub with_queue {ℓ} : {A : Type ℓ} → (Option Queue → S A) → S A
with_queue f a = f a.queue a

-- ===== src/Workload/Keeps.antt =====
-- Properties that every run of a method keeps: one rule for each way to build a method.
pub mod Calls
pub mod Volumes
use compute_agent.Base.{◌≡◌, refl, Bool, true, false, Option, none, some, if◌then◌else◌}
use compute_agent.Errors.{Err, Result, ok, err}
use compute_agent.Workload.World.{World, M, pure, ◌>>=◌, ◌>>◌, on_result, on_error}

-- A run of `m` from a world in `P` ends in a world in `P`.
pub record Keeps {ℓ} {A : Type ℓ} (P : World → Type 0) (m : M A) : Type ℓ where
  pub at : (w : World) → P w → P (m w).1

module _ {ℓ} {A : Type ℓ} {P : World → Type 0} where
  pub Keeps-pure : (a : A) → Keeps P (pure a)
  Keeps-pure a = record { at = λ w h. h }

  pub Keeps-if : (b : Bool) (m n : M A) → Keeps P m → Keeps P n → Keeps P (if b then m else n)
  Keeps-if true m n km kn = km
  Keeps-if false m n km kn = kn

  -- A branch may use its test.
  pub Keeps-if_test :
      (b : Bool) (m n : M A)
      → (b ≡ true → Keeps P m)
      → (b ≡ false → Keeps P n)
      → Keeps P (if b then m else n)
  Keeps-if_test true m n km kn = km refl
  Keeps-if_test false m n km kn = kn refl

module _ {ℓ κ} {A : Type ℓ} {B : Type κ} {P : World → Type 0} where
  pub Keeps-bind :
      (m : M A) (f : A → M B) → Keeps P m → ((a : A) → Keeps P (f a)) → Keeps P (m >>= f)
  Keeps-bind m f km kf = record { at = λ w h. (kf (m w).0).at (m w).1 (km.at w h) }

  pub Keeps-on_result :
      (r : Result A) (f : A → M B) (g : Err → M B)
      → ((a : A) → Keeps P (f a))
      → ((e : Err) → Keeps P (g e))
      → Keeps P (on_result r f g)
  Keeps-on_result (ok a) f g kf kg = kf a
  Keeps-on_result (err e) f g kf kg = kg e

  pub Keeps-on_error :
      (e : Option A) (m : M B) (g : A → M B)
      → Keeps P m
      → ((a : A) → Keeps P (g a))
      → Keeps P (on_error e m g)
  Keeps-on_error none m g km kg = km
  Keeps-on_error (some a) m g km kg = kg a

pub ruleset keeps_rules = (Keeps-pure, Keeps-if, Keeps-bind, Keeps-on_result, Keeps-on_error)

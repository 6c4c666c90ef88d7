-- ===== src/Base/Dict.antt =====
-- Go maps and buckets with text keys, as association lists with at most one entry for a key.
use mathlib.Core.Path.{◌≡◌, refl}
use mathlib.Core.List.{List, [], ◌∷◌, map}
use mathlib.Core.Option.{Option, none, some}
use native.Mathlib.Omega.{arith}
use Prim.Native.String.{String}
use text.Mathlib.Text.{◌==◌}
use text.Mathlib.TextEquality.{eq_iff}
use text.Mathlib.TextPositions.{eq_refl}
use compute_agent.Base.Tests.{if◌then◌else◌}

abbrev pub Dict {ℓ} : Type ℓ → Type ℓ
Dict V = List (String × V)

module _ {ℓ} {V : Type ℓ} where
  unfoldable pub get : String → Dict V → Option V
  get k [] = none
  get k ((j, v) ∷ m) = if j == k then some v else get k m

  unfoldable pub put : String → V → Dict V → Dict V
  put k v [] = (k, v) ∷ []
  put k v ((j, w) ∷ m) = if j == k then (k, v) ∷ m else (j, w) ∷ put k v m

  unfoldable pub remove : String → Dict V → Dict V
  remove k [] = []
  remove k ((j, v) ∷ m) = let rest = remove k m in if j == k then rest else (j, v) ∷ rest

  abbrev pub values : Dict V → List V
  values = map (λ e. e.1)

  abbrev pub keys : Dict V → List String
  keys = map (λ e. e.0)

  pub get-put :
      (j k : String) (v : V) (m : Dict V) → get j (put k v m) ≡ (if k == j then some v else get j m)
  unfolding get put
  get-put j k v [] = refl
  get-put j k v ((i, w) ∷ m) = ground (arith, eq_iff k j, eq_iff i k, eq_iff i j, get-put j k v m)

  pub get-put_self : (k : String) (v : V) (m : Dict V) → get k (put k v m) ≡ some v
  get-put_self k v m = simp (get-put, eq_refl)

  pub get-remove :
      (j k : String) (m : Dict V) → get j (remove k m) ≡ (if k == j then none else get j m)
  unfolding get remove
  get-remove j k [] = ground arith
  get-remove j k ((i, w) ∷ m) = ground (arith, eq_iff k j, eq_iff i k, eq_iff i j, get-remove j k m)

  pub get-remove_self : (k : String) (m : Dict V) → get k (remove k m) ≡ none
  get-remove_self k m = simp (get-remove, eq_refl)

module _ {ℓ} {V : Type ℓ} where
  -- No key stands twice.
  abbrev pub Distinct : Dict V → Type ℓ
  Distinct [] = Unit
  Distinct ((k, v) ∷ m) = (get k m ≡ none) × Distinct m

  pub put-Distinct : (k : String) (v : V) (m : Dict V) → Distinct m → Distinct (put k v m)
  unfolding put get
  put-Distinct k v [] d = (refl, tt)
  put-Distinct k v ((j, w) ∷ m) d =
      ground (arith, eq_iff j k, eq_iff k j, get-put j k v m, put-Distinct k v m d.1)

  pub remove-Distinct : (k : String) (m : Dict V) → Distinct m → Distinct (remove k m)
  unfolding remove
  remove-Distinct k [] d = tt
  remove-Distinct k ((j, w) ∷ m) d = ground (arith, get-remove j k m, remove-Distinct k m d.1)

pub ruleset dict_laws = (get-put, get-remove, eq_refl)

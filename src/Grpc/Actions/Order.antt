-- ===== src/Grpc/Actions/Order.antt =====
-- The history that `ListActions` of internal/grpc/server.go answers with: order and contents.
use compute_agent.Base.{
  ℕ, zero, suc, ◌≤◌, ◌≡◌, ◌==◌, inl, inr, refl, Bool, true, false, not, ◌&&◌, List, [], ◌∷◌, filter,
  count, length, ltb, All, arith, if◌then◌else◌, Bool-cases,
}
use Prim.Native.Nat.{min}
use compute_agent.Base.Int.{ℤ, pos, negsuc}
use compute_agent.TaskQueue.{TaskSnapshot}
use compute_agent.Grpc.Actions.{comes_before, insert, sort, take, limited}

-- The later action may follow the earlier one, or the other way round.
abbrev pub InOrder : Bool → TaskSnapshot → TaskSnapshot → Type 0
InOrder true a b = b.created_at ≤ a.created_at
InOrder false a b = a.created_at ≤ b.created_at

abbrev pub Ordered : Bool → List TaskSnapshot → Type 0
Ordered d [] = Unit
Ordered d (s ∷ ss) = All (InOrder d s) ss × Ordered d ss

All-insert :
    (P : TaskSnapshot → Type 0) (less : TaskSnapshot → TaskSnapshot → Bool) (s : TaskSnapshot)
    (ts : List TaskSnapshot)
    → P s
    → All P ts
    → All P (insert less s ts)
unfolding insert
All-insert P less s [] p h = (p, tt)
All-insert P less s (t ∷ ts) p h = elim (Bool-cases (less t s)) [
  | inl e ↦ rw e (h.0, All-insert P less s ts p h.1)
  | inr e ↦ rw e (p, h)
]

InOrder-trans : (d : Bool) (a b c : TaskSnapshot) → InOrder d a b → InOrder d b c → InOrder d a c
InOrder-trans true a b c h k = omega arith
InOrder-trans false a b c h k = omega arith

All-InOrder :
    (d : Bool) (a b : TaskSnapshot) (cs : List TaskSnapshot)
    → InOrder d a b
    → All (InOrder d b) cs
    → All (InOrder d a) cs
All-InOrder d a b [] h k = tt
All-InOrder d a b (c ∷ cs) h k = (InOrder-trans d a b c h k.0, All-InOrder d a b cs h k.1)

comes_before-InOrder : (d : Bool) (a b : TaskSnapshot) → comes_before d a b ≡ true → InOrder d a b
unfolding comes_before
comes_before-InOrder true a b h = ground arith
comes_before-InOrder false a b h = ground arith

not_before-InOrder : (d : Bool) (a b : TaskSnapshot) → comes_before d a b ≡ false → InOrder d b a
unfolding comes_before
not_before-InOrder true a b h = ground arith
not_before-InOrder false a b h = ground arith

insert-Ordered :
    (d : Bool) (s : TaskSnapshot) (ts : List TaskSnapshot)
    → Ordered d ts
    → Ordered d (insert (comes_before d) s ts)
unfolding insert
insert-Ordered d s [] h = (tt, tt)
insert-Ordered d s (t ∷ ts) h = elim (Bool-cases (comes_before d t s)) [
  | inl e ↦ rw e (
    All-insert (InOrder d t) (comes_before d) s ts (comes_before-InOrder d t s e) h.0,
    insert-Ordered d s ts h.1,
  )
  | inr e ↦ let k = not_before-InOrder d t s e in rw e ((k, All-InOrder d s t ts k h.0), h)
]

pub sort-Ordered : (d : Bool) (ss : List TaskSnapshot) → Ordered d (sort (comes_before d) ss)
unfolding sort
sort-Ordered d [] = tt
sort-Ordered d (s ∷ ss) = insert-Ordered d s (sort (comes_before d) ss) (sort-Ordered d ss)

module _ (p : TaskSnapshot → Bool) (less : TaskSnapshot → TaskSnapshot → Bool) where
  count-insert :
      (s : TaskSnapshot) (ts : List TaskSnapshot) → count p (insert less s ts) ≡ count p (s ∷ ts)
  unfolding insert
  count-insert s [] = refl
  count-insert s (t ∷ ts) = ground (arith, count-insert s ts)

  pub count-sort : (ss : List TaskSnapshot) → count p (sort less ss) ≡ count p ss
  unfolding sort
  count-sort [] = refl
  count-sort (s ∷ ss) = ground (arith, count-insert s (sort less ss), count-sort ss)

length-insert :
    (less : TaskSnapshot → TaskSnapshot → Bool) (s : TaskSnapshot) (ts : List TaskSnapshot)
    → length (insert less s ts) ≡ suc (length ts)
unfolding insert
length-insert less s [] = refl
length-insert less s (t ∷ ts) = ground (arith, length-insert less s ts)

pub length-sort :
    (less : TaskSnapshot → TaskSnapshot → Bool) (ss : List TaskSnapshot)
    → length (sort less ss) ≡ length ss
unfolding sort
length-sort less [] = refl
length-sort less (s ∷ ss) = ground (arith, length-insert less s (sort less ss), length-sort less ss)

pub All-sort :
    (P : TaskSnapshot → Type 0) (less : TaskSnapshot → TaskSnapshot → Bool) (ss : List TaskSnapshot)
    → All P ss
    → All P (sort less ss)
unfolding sort
All-sort P less [] h = tt
All-sort P less (s ∷ ss) h = All-insert P less s (sort less ss) h.0 (All-sort P less ss h.1)

All-take {ℓ} : {A : Type ℓ} (P : A → Type 0) (n : ℕ) (xs : List A) → All P xs → All P (take n xs)
All-take P n [] h = tt
All-take P zero (x ∷ xs) h = tt
All-take P (suc n) (x ∷ xs) h = (h.0, All-take P n xs h.1)

take-Ordered : (d : Bool) (n : ℕ) (ss : List TaskSnapshot) → Ordered d ss → Ordered d (take n ss)
take-Ordered d n [] h = tt
take-Ordered d zero (s ∷ ss) h = tt
take-Ordered d (suc n) (s ∷ ss) h = (All-take (InOrder d s) n ss h.0, take-Ordered d n ss h.1)

pub limited-Ordered :
    (d : Bool) (l : ℤ) (ss : List TaskSnapshot) → Ordered d ss → Ordered d (limited l ss)
unfolding limited
limited-Ordered d (negsuc n) ss h = h
limited-Ordered d (pos n) ss h = elim (Bool-cases (not (n == 0) && ltb n (length ss))) [
  | inl e ↦ rw e (take-Ordered d n ss h)
  | inr e ↦ rw e h
]

pub All-limited :
    (P : TaskSnapshot → Type 0) (l : ℤ) (ss : List TaskSnapshot) → All P ss → All P (limited l ss)
unfolding limited
All-limited P (negsuc n) ss h = h
All-limited P (pos n) ss h = elim (Bool-cases (not (n == 0) && ltb n (length ss))) [
  | inl e ↦ rw e (All-take P n ss h)
  | inr e ↦ rw e h
]

pub All-filter :
    (p : TaskSnapshot → Bool) (ss : List TaskSnapshot) → All (λ s. p s ≡ true) (filter p ss)
All-filter p [] = tt
All-filter p (s ∷ ss) = elim (Bool-cases (p s)) [
  | inl e ↦ rw e (e, All-filter p ss)
  | inr e ↦ rw e (All-filter p ss)
]

-- The bound that a limit sets; a limit that is not positive sets none.
abbrev pub bounded : ℤ → ℕ → ℕ
bounded (negsuc n) k = k
bounded (pos n) k = if n == 0 then k else min n k

length-take {ℓ} : {A : Type ℓ} (n : ℕ) (xs : List A) → length (take n xs) ≡ min n (length xs)
length-take n [] = omega arith
length-take zero (x ∷ xs) = omega arith
length-take (suc n) (x ∷ xs) = omega (arith, length-take n xs)

pub length-limited :
    (l : ℤ) (ss : List TaskSnapshot) → length (limited l ss) ≡ bounded l (length ss)
unfolding limited
length-limited (negsuc n) ss = refl
length-limited (pos n) ss = ground (arith, length-take n ss)

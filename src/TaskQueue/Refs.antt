-- ===== src/TaskQueue/Refs.antt =====
-- Lists of tasks in the queue (internal/task/queue.go): which tasks stand in them, and their status.
use mathlib.Core.List.{append_assoc}
use compute_agent.Base.{
  Bool, true, any, refl, suc, subst, inl, inr, Bool-cases, ◌≤◌, ◌==◌, ◌≡◌, ◌≢◌, ◌∙◌, ap, sym, not,
  List, [], ◌∷◌, ◌++◌, length, filter, arith, ==_iff, if◌then◌else◌,
}
use compute_agent.TaskQueue.{Ref, Task, TaskStatus}

-- `r` does not stand in the list.
abbrev pub Absent : Ref → List Ref → Type 0
Absent r [] = Unit
Absent r (s ∷ rs) = (s ≢ r) × Absent r rs

abbrev pub AllDistinct : List Ref → Type 0
AllDistinct [] = Unit
AllDistinct (r ∷ rs) = Absent r rs × AllDistinct rs

-- All tasks of the list have the status.
abbrev pub HaveStatus : TaskStatus → (Ref → Task) → List Ref → Type 0
HaveStatus s o [] = Unit
HaveStatus s o (r ∷ rs) = ((o r).status ≡ s) × HaveStatus s o rs

pub HaveStatus-set :
    (s : TaskStatus) (o : Ref → Task) (r : Ref) (t : Task) (rs : List Ref)
    → Absent r rs
    → HaveStatus s o rs
    → HaveStatus s (λ x. if x == r then t else o x) rs
HaveStatus-set s o r t [] a h = tt
HaveStatus-set s o r t (x ∷ rs) a h =
    (ground (arith, ==_iff x r), HaveStatus-set s o r t rs a.1 h.1)

pub HaveStatus-append :
    (s : TaskStatus) (o : Ref → Task) (rs : List Ref) (r : Ref)
    → HaveStatus s o rs
    → (o r).status ≡ s
    → HaveStatus s o (rs ++ r ∷ [])
HaveStatus-append s o [] r h e = (e, tt)
HaveStatus-append s o (x ∷ rs) r h e = (h.0, HaveStatus-append s o rs r h.1 e)

pub Absent-append : (r x : Ref) (rs : List Ref) → Absent r rs → x ≢ r → Absent r (rs ++ x ∷ [])
Absent-append r x [] a n = (n, tt)
Absent-append r x (y ∷ rs) a n = (a.0, Absent-append r x rs a.1 n)

pub AllDistinct-append :
    (r : Ref) (rs : List Ref) → Absent r rs → AllDistinct rs → AllDistinct (rs ++ r ∷ [])
AllDistinct-append r [] a d = (tt, tt)
AllDistinct-append r (x ∷ rs) a d =
    (Absent-append x r rs d.0 (λ e. a.0 (sym e)), AllDistinct-append r rs a.1 d.1)

-- A task with another status is none of them.
pub HaveStatus-Absent :
    (s : TaskStatus) (o : Ref → Task) (r : Ref) (rs : List Ref)
    → HaveStatus s o rs
    → (o r).status ≢ s
    → Absent r rs
HaveStatus-Absent s o r [] h n = tt
HaveStatus-Absent s o r (x ∷ rs) h n =
    (λ e. n (ap (λ y. (o y).status) (sym e) ∙ h.0), HaveStatus-Absent s o r rs h.1 n)

abbrev pub without : Ref → List Ref → List Ref
without r = filter (λ s. not (s == r))

pub Absent-without : (r x : Ref) (rs : List Ref) → Absent x rs → Absent x (without r rs)
Absent-without r x [] a = tt
Absent-without r x (y ∷ rs) a = ground (arith, Absent-without r x rs a.1)

pub without-Absent : (r : Ref) (rs : List Ref) → Absent r (without r rs)
without-Absent r [] = tt
without-Absent r (y ∷ rs) = ground (arith, ==_iff y r, without-Absent r rs)

pub AllDistinct-without : (r : Ref) (rs : List Ref) → AllDistinct rs → AllDistinct (without r rs)
AllDistinct-without r [] d = tt
AllDistinct-without r (y ∷ rs) d =
    ground (arith, AllDistinct-without r rs d.1, Absent-without r y rs d.0)

pub HaveStatus-without :
    (s : TaskStatus) (o : Ref → Task) (r : Ref) (rs : List Ref)
    → HaveStatus s o rs
    → HaveStatus s o (without r rs)
HaveStatus-without s o r [] h = tt
HaveStatus-without s o r (y ∷ rs) h = ground (arith, HaveStatus-without s o r rs h.1)

pub length-without : (r : Ref) (rs : List Ref) → length (without r rs) ≤ length rs
length-without r [] = omega arith
length-without r (y ∷ rs) = ground (arith, length-without r rs)

-- Whether a task stands in the list.
abbrev pub stands : Ref → List Ref → Bool
stands r = any (λ s. s == r)

pub HaveStatus-stands :
    (s : TaskStatus) (o : Ref → Task) (r : Ref) (xs ys : List Ref)
    → stands r xs ≡ true
    → HaveStatus s o (xs ++ ys)
    → (o r).status ≡ s
HaveStatus-stands s o r [] ys e h = ground (arith, e)
HaveStatus-stands s o r (x ∷ xs) ys e h = elim (Bool-cases (x == r)) [
  | inl same ↦ ap (λ y. (o y).status) (sym ((==_iff x r).0 same)) ∙ h.0
  | inr other ↦ HaveStatus-stands s o r xs ys (ground (arith, e, other)) h.1
]

pub length-without-stands :
    (r : Ref) (xs : List Ref) → stands r xs ≡ true → suc (length (without r xs)) ≤ length xs
length-without-stands r [] e = ground (arith, e)
length-without-stands r (x ∷ xs) e = ground (arith, length-without r xs, length-without-stands r xs)

without-Absent_id : (r : Ref) (xs : List Ref) → Absent r xs → without r xs ≡ xs
without-Absent_id r [] a = refl
without-Absent_id r (x ∷ xs) a = ground (arith, ==_iff x r, without-Absent_id r xs a.1)

Absent-first : (r : Ref) (xs ys : List Ref) → Absent r (xs ++ ys) → Absent r xs
Absent-first r [] ys a = tt
Absent-first r (x ∷ xs) ys a = (a.0, Absent-first r xs ys a.1)

pub without-append :
    (r : Ref) (xs ys : List Ref)
    → stands r xs ≡ true
    → AllDistinct (xs ++ ys)
    → without r (xs ++ ys) ≡ without r xs ++ ys
without-append r [] ys e d = ground (arith, e)
without-append r (x ∷ xs) ys e d = elim (Bool-cases (x == r)) [
  | inl same ↦
      let a = subst (λ y. Absent y (xs ++ ys)) ((==_iff x r).0 same) d.0 in
      rw (same, without-Absent_id r (xs ++ ys) a, without-Absent_id r xs (Absent-first r xs ys a))
        refl
  | inr other ↦ rw other (ap (λ l. x ∷ l) (without-append r xs ys (ground (arith, e, other)) d.1))
]

-- The oldest task of a second list goes to the end of the first.
pub append-move : (xs : List Ref) (r : Ref) (ys : List Ref) → (xs ++ r ∷ []) ++ ys ≡ xs ++ r ∷ ys
append-move xs r ys = append_assoc xs (r ∷ []) ys

-- A task goes to the end of the second of two lists.
append-last : (xs ys : List Ref) (r : Ref) → (xs ++ ys) ++ r ∷ [] ≡ xs ++ (ys ++ r ∷ [])
append-last xs ys r = append_assoc xs ys (r ∷ [])

pub HaveStatus-last :
    (s : TaskStatus) (o : Ref → Task) (xs ys : List Ref) (r : Ref)
    → HaveStatus s o (xs ++ ys)
    → (o r).status ≡ s
    → HaveStatus s o (xs ++ (ys ++ r ∷ []))
HaveStatus-last s o xs ys r h e =
    subst (HaveStatus s o) (append-last xs ys r) (HaveStatus-append s o (xs ++ ys) r h e)

pub AllDistinct-last :
    (xs ys : List Ref) (r : Ref)
    → Absent r (xs ++ ys)
    → AllDistinct (xs ++ ys)
    → AllDistinct (xs ++ (ys ++ r ∷ []))
AllDistinct-last xs ys r a d =
    subst AllDistinct (append-last xs ys r) (AllDistinct-append r (xs ++ ys) a d)

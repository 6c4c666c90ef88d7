-- ===== src/Grpc/Actions/History.antt =====
-- What `ListActions` of internal/grpc/server.go answers: in order, as asked for, and no less.
use compute_agent.Base.{
  ◌==◌, ℕ, ◌≤◌, ◌≡◌, ◌∙◌, ◌⊎◌, inl, inr, refl, String, Bool, true, false, ◌&&◌, some, none, List,
  [], ◌∷◌, filter, count, length, map, All, arith, length-filter, is_blank, trim_space, eq_iff,
  Bool-cases,
}
use compute_agent.Base.Int.{pos, negsuc, ◌≤ℤ◌}
use compute_agent.TaskQueue.{TaskSnapshot, Queue, list_task_snapshots, task_type_text}
use compute_agent.Grpc.Messages.{ListActionsRequest, AgentAction}
use compute_agent.Grpc.Convert.{unix}
use compute_agent.Grpc.Tasks.{status_text}
use compute_agent.Grpc.Actions.{
  passes, is_wanted, comes_before, sort, limited, to_action, list_actions,
}
use compute_agent.Grpc.Actions.Order.{
  InOrder, Ordered, sort-Ordered, limited-Ordered, All-sort, All-limited, All-filter, bounded,
  length-limited, length-sort, count-sort,
}

-- No action was made before the one that it precedes, or after it, as asked for.
abbrev pub Follows : Bool → AgentAction → AgentAction → Type 0
Follows true a b = b.created_at ≤ℤ a.created_at
Follows false a b = a.created_at ≤ℤ b.created_at

abbrev pub IsHistory : Bool → List AgentAction → Type 0
IsHistory d [] = Unit
IsHistory d (a ∷ rest) = All (Follows d a) rest × IsHistory d rest

-- A filter is blank, or is the value but for white space around it.
abbrev pub Fits : String → String → Type 0
Fits wanted value = (is_blank (trim_space wanted) ≡ true) ⊎ (value ≡ trim_space wanted)

abbrev pub IsAskedFor : ListActionsRequest → AgentAction → Type 0
IsAskedFor req a =
    Fits req.workload_id a.workload_id
    × Fits req.action_type a.action_type
    × Fits req.status a.status

unix_mono : (t u : ℕ) → t ≤ u → unix t ≤ℤ unix u
unfolding unix
unix_mono t u h = ground arith

passes-Fits : (wanted value : String) → passes wanted value ≡ true → Fits wanted value
unfolding passes
passes-Fits wanted value h = elim (Bool-cases (is_blank (trim_space wanted))) [
  | inl e ↦ inl e
  | inr e ↦ inr ((eq_iff value (trim_space wanted)).0 (ground arith))
]

is_wanted-IsAskedFor :
    (req : ListActionsRequest) (s : TaskSnapshot)
    → is_wanted req s ≡ true
    → IsAskedFor req (to_action s)
unfolding is_wanted to_action status_text
is_wanted-IsAskedFor req s h = (
  passes-Fits req.workload_id s.workload_id (ground arith),
  passes-Fits req.action_type (task_type_text s.kind) (ground arith),
  passes-Fits req.status (status_text s.status) (ground arith),
)

InOrder-Follows :
    (d : Bool) (s t : TaskSnapshot) → InOrder d s t → Follows d (to_action s) (to_action t)
unfolding to_action
InOrder-Follows true s t h = unix_mono t.created_at s.created_at h
InOrder-Follows false s t h = unix_mono s.created_at t.created_at h

All-Follows :
    (d : Bool) (s : TaskSnapshot) (ts : List TaskSnapshot)
    → All (InOrder d s) ts
    → All (Follows d (to_action s)) (map to_action ts)
All-Follows d s [] h = tt
All-Follows d s (t ∷ ts) h = (InOrder-Follows d s t h.0, All-Follows d s ts h.1)

Ordered-IsHistory :
    (d : Bool) (ss : List TaskSnapshot) → Ordered d ss → IsHistory d (map to_action ss)
Ordered-IsHistory d [] h = tt
Ordered-IsHistory d (s ∷ ss) h = (All-Follows d s ss h.0, Ordered-IsHistory d ss h.1)

All-IsAskedFor :
    (req : ListActionsRequest) (ss : List TaskSnapshot)
    → All (λ s. is_wanted req s ≡ true) ss
    → All (IsAskedFor req) (map to_action ss)
All-IsAskedFor req [] h = tt
All-IsAskedFor req (s ∷ ss) h = (is_wanted-IsAskedFor req s h.0, All-IsAskedFor req ss h.1)

length-map {ℓ κ} :
    {A : Type ℓ} {B : Type κ} (f : A → B) (xs : List A) → length (map f xs) ≡ length xs
length-map f [] = refl
length-map f (x ∷ xs) = omega (arith, length-map f xs)

count-map {ℓ κ} :
    {A : Type ℓ} {B : Type κ} (p : B → Bool) (f : A → B) (xs : List A)
    → count p (map f xs) ≡ count (λ x. p (f x)) xs
count-map p f [] = refl
count-map p f (x ∷ xs) = ground (arith, count-map p f xs)

count-filter {ℓ} :
    {A : Type ℓ} (p q : A → Bool) (xs : List A) → count p (filter q xs) ≡ count (λ x. q x && p x) xs
count-filter p q [] = refl
count-filter p q (x ∷ xs) = ground (arith, count-filter p q xs)

-- The tasks of the queue that a request asks for.
abbrev pub asked : ListActionsRequest → Queue → List TaskSnapshot
asked req q = filter (is_wanted req) (list_task_snapshots none q)

-- The history is in the order of creation that the request wants, newest or oldest first; each
-- action fits every filter that is not blank; and there are as many as tasks of the queue that the
-- request wants, but at most as many as its limit if that is positive.
pub list_actions-IsHistory :
    (req : ListActionsRequest) (q : Queue)
    → IsHistory req.newest_first (list_actions req (some q))
      × All (IsAskedFor req) (list_actions req (some q))
      × (length (list_actions req (some q))
          ≡ bounded req.limit (count (is_wanted req) (list_task_snapshots none q)))
unfolding list_actions
list_actions-IsHistory req q =
    let d = req.newest_first in
    let less = comes_before d in
    let l = req.limit in
    let found : List TaskSnapshot = asked req q in
    (
      Ordered-IsHistory d (limited l (sort less found))
          (limited-Ordered d l (sort less found) (sort-Ordered d found)),
      All-IsAskedFor req (limited l (sort less found)) (
          All-limited (λ s. is_wanted req s ≡ true) l (sort less found)
            (All-sort (λ s. is_wanted req s ≡ true) less found
              (All-filter (is_wanted req) (list_task_snapshots none q)))),
      length-map to_action (limited l (sort less found))
          ∙ length-limited l (sort less found)
          ∙ rw (length-sort less found, length-filter (is_wanted req) (list_task_snapshots none q)),
    )

abbrev pub has_no_limit : ListActionsRequest → Bool
has_no_limit req = elim req.limit [ pos n ↦ n == 0 | negsuc n ↦ true ]

limited-all :
    (req : ListActionsRequest) (ss : List TaskSnapshot)
    → has_no_limit req ≡ true
    → limited req.limit ss ≡ ss
unfolding limited
limited-all req ss h = ground arith

-- Without a positive limit the history leaves nothing out and invents nothing: as many of its
-- actions pass any test as tasks of the queue that the request wants pass it as actions.
pub list_actions-count :
    (req : ListActionsRequest) (q : Queue) (p : AgentAction → Bool)
    → has_no_limit req ≡ true
    → count p (list_actions req (some q))
      ≡ count (λ s. is_wanted req s && p (to_action s)) (list_task_snapshots none q)
unfolding list_actions
list_actions-count req q p h =
    let less = comes_before req.newest_first in
    let found : List TaskSnapshot = asked req q in
    rw
      (
        limited-all req (sort less found) h,
        count-map p to_action (sort less found),
        count-sort (λ s. p (to_action s)) less found,
      )
      (count-filter (λ s. p (to_action s)) (is_wanted req) (list_task_snapshots none q))

-- ===== src/Compose/Counts.antt =====
-- What the state of a compose project says of its containers (internal/runtime/compose.go).
use compute_agent.Base.{
  ℕ, ◌≡◌, ◌⊎◌, ◌≢◌, refl, inl, inr, String, true, false, List, [], ◌∷◌, length, is_empty, arith,
  ◌<◌, Bool-cases,
}
use compute_agent.Errors.{Err, Result, ok, err}
use compute_agent.Models.{ActualState, unknown}
use compute_agent.Compose.{
  Question, compose_all, compose_running, docker_all, docker_running, Host, Answer, verdict, ask,
  or_docker, ids_by, fallen_back, checked_again, with_running, with_all, status,
}

-- What the numbers of running and of all containers must be.
abbrev pub Means : ActualState → ℕ → ℕ → Type 0
Means ActualState.running k n = (0 < n) × (k ≡ n)
Means ActualState.pending k n = (0 < k) × (0 < n) × (k ≢ n)
Means ActualState.stopped k n = (n ≡ 0) ⊎ (k ≡ 0)
Means _ k n = ⊥

verdict-Means : (k n : ℕ) → Means (verdict k n).0 k n
unfolding verdict
verdict-Means k n = ground arith

-- The latest of these questions was answered with an error.
abbrev pub Fails : Host → List Question → Type 0
Fails host qs = (e : Err) × (host.containers qs ≡ err e)

-- After `qs` the first question was asked, and the second too where the first failed; `h` are the
-- questions then.
abbrev pub Asks : Host → Question → Question → List Question → List Question → Type 0
Asks host q q' qs h = (h ≡ q ∷ qs) ⊎ ((h ≡ q' ∷ q ∷ qs) × Fails host (q ∷ qs))

-- After `qs`, `ids` was the answer for all containers and directly after it `up` that for those that
-- run, each by compose or, where that failed, by docker; `h` are the questions then.
abbrev pub Looks : Host → List Question → List String → List String → List Question → Type 0
Looks host qs ids up h =
    (i : List Question) × Asks host compose_all docker_all qs i
    × (host.containers i ≡ ok ids)
    × Asks host compose_running docker_running i h
    × (host.containers h ≡ ok up)

-- Some containers were listed.
abbrev pub IsFirst : Host → List Question → List String → List String → List Question → Type 0
IsFirst host qs ids up h = (is_empty ids ≡ false) × Looks host qs ids up h

-- An answer that lists nothing.
abbrev pub ListsNone : Result (List String) → Type 0
ListsNone (err e) = Unit
ListsNone (ok ids) = ids ≡ []

-- None were listed, and docker, which was asked for all then, did not list any.
abbrev pub IsNone : Host → List Question → List String → List String → List Question → Type 0
IsNone host qs ids up h =
    (i : List Question) × (ids ≡ [])
    × Looks host qs ids up i
    × (h ≡ docker_all ∷ i)
    × ListsNone (host.containers h)

-- None were listed, but docker, which was asked for all then, listed some; `up` is what it answered
-- directly after it for those that run.
abbrev pub IsSecond : Host → List Question → List String → List String → List Question → Type 0
IsSecond host qs ids up h =
    (i : List Question) × (before : List String) × Looks host qs [] before i
    × (is_empty ids ≡ false)
    × (host.containers (docker_all ∷ i) ≡ ok ids)
    × (h ≡ docker_running ∷ docker_all ∷ i)
    × (host.containers h ≡ ok up)

-- What an answer rests on, `qs` and `h` being the questions before and after.
abbrev pub IsFounded : Host → List Question → Answer → List Question → Type 0
IsFounded host qs (err e) h = Fails host h
IsFounded host qs (ok (s, t)) h =
    (ids up : List String) × (IsFirst host qs ids up h
      ⊎ IsNone host qs ids up h
      ⊎ IsSecond host qs ids up h)
    × Means s (length up) (length ids)

abbrev pub IsTrue : Host → String → List Question → Answer → List Question → Type 0
IsTrue host id qs a h =
    ((host.has_project id ≡ false) × (a ≡ ok (unknown, "project not found")) × (h ≡ qs))
    ⊎ ((host.has_project id ≡ true) × IsFounded host qs a h)

module _ (host : Host) where
  or_docker-Asks :
      (q q' : Question) (qs : List Question) (r : Result (List String))
      → host.containers (q ∷ qs) ≡ r
      → Asks host q q' qs (or_docker host q' r (q ∷ qs)).1
        × (host.containers (or_docker host q' r (q ∷ qs)).1 ≡ (or_docker host q' r (q ∷ qs)).0)
  unfolding or_docker ask
  or_docker-Asks q q' qs (ok ids) e = (inl refl, e)
  or_docker-Asks q q' qs (err x) e = (inr (refl, (x, e)), refl)

  ids_by-Asks :
      (q q' : Question) (qs : List Question)
      → Asks host q q' qs (ids_by host q q' qs).1
        × (host.containers (ids_by host q q' qs).1 ≡ (ids_by host q q' qs).0)
  unfolding ids_by ask
  ids_by-Asks q q' qs = or_docker-Asks q q' qs (host.containers (q ∷ qs)) refl

  module _ (qs : List Question) where
    fallen_back-IsFounded :
        (i : List Question) (before ids : List String) (r : Result (List String))
        → Looks host qs [] before i
        → is_empty ids ≡ false
        → host.containers (docker_all ∷ i) ≡ ok ids
        → host.containers (docker_running ∷ docker_all ∷ i) ≡ r
        → IsFounded host qs (fallen_back host ids r) (docker_running ∷ docker_all ∷ i)
    fallen_back-IsFounded i before ids (err e) k some_ids a b = (e, b)
    fallen_back-IsFounded i before ids (ok up) k some_ids a b = (
      ids,
      up,
      inr (inr (i, before, k, some_ids, a, refl, b)),
      verdict-Means (length up) (length ids),
    )

    checked_again-IsFounded :
        (up : List String) (i : List Question) (r : Result (List String))
        → Looks host qs [] up i
        → host.containers (docker_all ∷ i) ≡ r
        → IsFounded host qs
            (checked_again host up r (docker_all ∷ i)).0
            (checked_again host up r (docker_all ∷ i)).1
    unfolding ask
    checked_again-IsFounded up i (err e) k a =
        ([], up, inr (inl (i, refl, k, refl, rw a tt)), verdict-Means (length up) 0)
    checked_again-IsFounded up i (ok []) k a =
        ([], up, inr (inl (i, refl, k, refl, rw a refl)), verdict-Means (length up) 0)
    checked_again-IsFounded up i (ok (x ∷ ids)) k a =
        fallen_back-IsFounded i up (x ∷ ids) (host.containers (docker_running ∷ docker_all ∷ i)) k
          refl a refl

    with_running-IsFounded :
        (ids : List String) (i h : List Question) (r : Result (List String))
        → Asks host compose_all docker_all qs i
        → host.containers i ≡ ok ids
        → Asks host compose_running docker_running i h
        → host.containers h ≡ r
        → IsFounded host qs (with_running host ids r h).0 (with_running host ids r h).1
    unfolding ask
    with_running-IsFounded ids i h (err e) a b c d = (e, d)
    with_running-IsFounded [] i h (ok up) a b c d =
        checked_again-IsFounded up h (host.containers (docker_all ∷ h)) (i, a, b, c, d) refl
    with_running-IsFounded (x ∷ ids) i h (ok up) a b c d =
        (x ∷ ids, up, inl (refl, (i, a, b, c, d)), verdict-Means (length up) (length (x ∷ ids)))

    with_all-IsFounded :
        (i : List Question) (r : Result (List String))
        → Asks host compose_all docker_all qs i
        → host.containers i ≡ r
        → IsFounded host qs (with_all host r i).0 (with_all host r i).1
    with_all-IsFounded i (err e) a b = (e, b)
    with_all-IsFounded i (ok ids) a b =
        let r = ids_by host compose_running docker_running i in
        let k = ids_by-Asks compose_running docker_running i in
        with_running-IsFounded ids i r.1 r.0 a b k.0 k.1

  -- Without its directory a project is reported unknown, and nothing is asked. With it, an error is
  -- reported only where the last question failed. Any other report rests on the list of all
  -- containers and, asked for directly after it, on that of those that run: it is running only if
  -- they are equally long and not empty, pending only if both are not empty and differ in length,
  -- stopped only if one of them is empty, and nothing else. Each list is compose's or, where compose
  -- failed, docker's; if no container was listed docker is asked for all once more, and where it
  -- lists some both lists are docker's.
  pub status-IsTrue :
      (id : String) (qs : List Question)
      → IsTrue host id qs (status host id qs).0 (status host id qs).1
  unfolding status
  status-IsTrue id qs = elim (Bool-cases (host.has_project id)) [
    | inl e ↦
        let r = ids_by host compose_all docker_all qs in
        let k = ids_by-Asks compose_all docker_all qs in
        rw e (inr (refl, with_all-IsFounded qs r.1 r.0 k.0 k.1))
    | inr e ↦ rw e (inl (refl, refl, refl))
  ]

-- ===== src/Compose.antt =====
-- internal/runtime/compose.go: the state of a compose project, over what compose and docker answer.
-- The answers may depend on the questions asked so far, the newest first.
pub mod Counts
use compute_agent.Base.{
  ℕ, String, ◌<>◌, Bool, true, false, ◌||◌, Option, none, some, List, [], ◌∷◌, ◌==◌, ltb, length,
  codes, lower_codes, has_infix, has_prefix, is_blank, trim_space, decimal, if◌then◌else◌,
}
use compute_agent.Errors.{Err, plain, error_text, Result, ok, err}
use compute_agent.Models.{ActualState, running, stopped, pending, unknown}

-- Compose or docker is asked for the containers of a project, for all or for those that run.
pub data Question : Type 0 where
  compose_all compose_running docker_all docker_running : Question

pub record Host : Type 0 where
  pub has_project : String → Bool
  pub containers : List Question → Result (List String)

abbrev pub C {ℓ} : Type ℓ → Type ℓ
C A = List Question → A × List Question

abbrev pub pure {ℓ} : {A : Type ℓ} → A → C A
pure a qs = (a, qs)

infixl 5 ◌>>=◌
abbrev pub ◌>>=◌ {ℓ κ} : {A : Type ℓ} {B : Type κ} → C A → (A → C B) → C B
◌>>=◌ f g qs = let (a, qs') = f qs in g a qs'

abbrev pub Answer : Type 0
Answer = Result (ActualState × String)

abbrev tally : ℕ → ℕ → String
tally k n = decimal k <> "/" <> decimal n <> " containers running"

-- What the numbers of running and of all containers mean.
unfoldable pub verdict : ℕ → ℕ → ActualState × String
verdict k n =
    if n == 0
    then (stopped, "no containers")
    else if k == n
    then (running, tally k n)
    else if ltb 0 k
    then (pending, tally k n)
    else (stopped, tally 0 n)

abbrev pub judged : List String → List String → Answer
judged ids up = ok (verdict (length up) (length ids))

module _ (host : Host) where
  unfoldable pub ask : Question → C (Result (List String))
  ask q qs = (host.containers (q ∷ qs), q ∷ qs)

  -- Compose is asked, and docker where that fails.
  or_docker : Question → Result (List String) → C (Result (List String))
  or_docker q (ok ids) = pure (ok ids)
  or_docker q (err e) = ask q

  unfoldable pub ids_by : Question → Question → C (Result (List String))
  unfolding or_docker
  ids_by q q' = do r ← ask q; or_docker q' r

  -- Docker knew of containers that compose did not.
  abbrev pub fallen_back : List String → Result (List String) → Answer
  fallen_back ids (ok up) = judged ids up
  fallen_back ids (err e) = err (
      plain ("failed to get running compose container list from docker fallback: " <> error_text e))

  abbrev pub checked_again : List String → Result (List String) → C Answer
  checked_again up (err e) = pure (judged [] up)
  checked_again up (ok []) = pure (judged [] up)
  checked_again up (ok (i ∷ ids)) = do r ← ask docker_running; pure (fallen_back (i ∷ ids) r)

  abbrev pub with_running : List String → Result (List String) → C Answer
  with_running ids (err e) = pure (
      err (
        plain (
          "failed to get running compose container list via compose and docker fallback: "
          <> error_text e)))
  with_running [] (ok up) = do r ← ask docker_all; checked_again up r
  with_running (i ∷ ids) (ok up) = pure (judged (i ∷ ids) up)

  abbrev pub with_all : Result (List String) → C Answer
  with_all (err e) = pure (
      err (
        plain (
          "failed to get compose container list via compose and docker fallback: "
          <> error_text e)))
  with_all (ok ids) = do r ← ids_by compose_running docker_running; with_running ids r

  -- `Status`; with an error the state is unknown.
  unfoldable pub status : String → C Answer
  unfolding ids_by ask
  status id =
      if host.has_project id
      then (do r ← ids_by compose_all docker_all; with_all r)
      else pure (ok (unknown, "project not found"))

-- `looksLikeInlineComposeYAML`
unfoldable pub looks_like_inline_compose_yaml : String → Bool
looks_like_inline_compose_yaml payload =
    let trimmed = trim_space payload in
    let low = lower_codes trimmed in
    has_infix (codes trimmed) (codes "\n")
    || (has_infix low (codes "services:") || has_prefix low (codes "version:"))

pub data Payload : Type 0 where
  from_base64 inline : String → Payload

abbrev pub inline_or : String → Result String → Result Payload
inline_or trimmed (ok decoded) = ok (from_base64 decoded)
inline_or trimmed (err e) =
    if looks_like_inline_compose_yaml trimmed
    then ok (inline trimmed)
    else err (
        plain
          ("invalid base64 payload and does not look like inline compose yaml: " <> error_text e))

-- `decodeComposeYAMLPayload`; the decoding of base64 is the first argument.
unfoldable pub decode_compose_yaml_payload : (String → Result String) → String → Result Payload
unfolding looks_like_inline_compose_yaml
decode_compose_yaml_payload decode payload =
    let trimmed = trim_space payload in
    if is_blank trimmed
    then err (plain "compose yaml payload is empty")
    else inline_or trimmed (decode trimmed)

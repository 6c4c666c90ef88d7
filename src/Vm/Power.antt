-- ===== src/Vm/Power.antt =====
-- internal/runtime/vm.go, lines 147 to 244: starting and stopping a domain.
pub mod Stopped
use compute_agent.Base.{
  ℕ, zero, suc, String, ◌<>◌, Bool, true, false, not, ◌&&◌, Option, none, some, List, [], ◌∷◌,
  if◌then◌else◌,
}
use compute_agent.Errors.{Err, error_text, Result, ok, err}
use compute_agent.Vm.{
  Call, gets_state, resumes, starts, shuts_down, destroys, Host, Machine, V, pure, ◌>>=◌,
  is_domain_not_found, Lookup, present, absent, unknown, act, get_state, lookup_domain,
}
use compute_agent.Vm.States.{
  DomainState, is_running, is_paused, is_shutoff, is_shutdown, is_crashed, is_blocked, is_nostate,
  is_pmsuspended, is_other, is_off,
}

-- `fmt.Errorf` around an error, if there is one
abbrev pub wrapped : String → Option String → Option String
wrapped message none = none
wrapped message (some e) = some (message <> ": " <> e)

-- The error of a forced stop counts unless the domain is gone.
abbrev pub forced : String → Option String → Option String
forced message none = none
forced message (some e) = if is_domain_not_found e then none else some (message <> ": " <> e)

module _ (host : Host) where
  start_in : String → Result DomainState → V (Option String)
  start_in id (err e) =
      pure (some ("failed to get domain state for " <> id <> ": " <> error_text e))
  start_in id (ok (is_running r)) = pure none
  start_in id (ok (is_paused r)) = do
    e ← act host (resumes id)
    pure (wrapped ("failed to resume paused domain " <> id) e)
  start_in id (ok s) = do
    e ← act host (starts id)
    pure (wrapped ("failed to start domain " <> id) e)

  start_found : String → Lookup → V (Option String)
  unfolding start_in
  start_found id (unknown e) = pure (some e)
  start_found id absent = pure (some ("failed to start domain " <> id <> ": domain not found"))
  start_found id present = do s ← get_state host id; start_in id s

  -- `Start`; the result is the error
  unfoldable pub start : String → V (Option String)
  unfolding start_found
  start id = do l ← lookup_domain host id; start_found id l

  -- The domain is forced off.
  force : String → String → V (Option String)
  force message id = do e ← act host (destroys id); pure (forced message e)

  -- What a look at the state says while the domain shuts down: the result, or to wait on.
  abbrev pub verdict : String → Result DomainState → Option (Option String)
  verdict id (ok s) = if is_off s then some none else none
  verdict id (err e) = some (
      if is_domain_not_found (error_text e)
      then none
      else some ("failed to verify shutdown state for " <> id <> ": " <> error_text e))

  abbrev pub or_wait : Option (Option String) → V (Option String) → V (Option String)
  or_wait none rest = rest
  or_wait (some r) rest = pure r

  -- The loop of `Stop`, with the number of ticks that come before the deadline.
  await : ℕ → String → V (Option String)
  unfolding force
  await zero id = force ("failed to force stop domain " <> id <> " after timeout") id
  await (suc n) id = do s ← get_state host id; or_wait (verdict id s) (await n id)

  stop_asked : ℕ → String → Option String → V (Option String)
  unfolding await force
  stop_asked n id none = await n id
  stop_asked n id (some e) = force ("failed to force stop domain " <> id) id

  stop_in : ℕ → String → Result DomainState → V (Option String)
  unfolding stop_asked
  stop_in n id (err e) =
      pure (some ("failed to get domain state for " <> id <> ": " <> error_text e))
  stop_in n id (ok s) =
      if is_off s then pure none else (do e ← act host (shuts_down id); stop_asked n id e)

  stop_found : ℕ → String → Lookup → V (Option String)
  unfolding stop_in
  stop_found n id (unknown e) = pure (some e)
  stop_found n id absent = pure none
  stop_found n id present = do s ← get_state host id; stop_in n id s

  -- `Stop`
  unfoldable pub stop : ℕ → String → V (Option String)
  unfolding stop_found
  stop n id = do l ← lookup_domain host id; stop_found n id l

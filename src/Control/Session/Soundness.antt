-- ===== src/Control/Session/Soundness.antt =====
-- What holds of the loop of internal/control/client.go, `Run`, in every state it can reach.
use compute_agent.Base.{
  ℕ, ◌≤◌, ◌≡◌, ◌⊎◌, inl, inr, refl, Bool, true, false, Option, none, some, List, [], ◌∷◌, length,
  ap, Option-cases, arith,
}
use compute_agent.Models.{Time}
use compute_agent.Clock.{Duration}
use compute_agent.Control.Messages.{RegisterNodeResponse, HeartbeatResponse}
use compute_agent.Control.Backoff.{next_backoff, backoff_after}
use compute_agent.Control.Session.{
  Phase, at_top, dialing, registering, pausing, stopped, greeting, waiting, beating, Session,
  new_session, Event, cancels, looks, dials, registers, beats, ticks, is_done, wakes, on_look,
  on_dial, on_register, on_greet, on_beat, on_tick, on_wake, react, step, run, after,
}

-- The connections that are open in a phase.
abbrev pub held : Phase → ℕ
held at_top = 0
held dialing = 0
held registering = 1
held pausing = 0
held stopped = 0
held (greeting i lease) = 1
held (waiting i lease) = 1
held (beating i lease) = 1

-- A phase in which heartbeats are sent.
abbrev pub is_member : Phase → Bool
is_member at_top = false
is_member dialing = false
is_member registering = false
is_member pausing = false
is_member stopped = false
is_member (greeting i lease) = true
is_member (waiting i lease) = true
is_member (beating i lease) = true

-- The pauses, the latest first, are those of so many failures in a row.
abbrev pub Doubles : List Duration → Type 0
Doubles [] = Unit
Doubles (d ∷ ds) = (d ≡ backoff_after (length ds)) × Doubles ds

-- The connection of the phase is open and no other; nothing is sent before a registration; the
-- pauses since a registration, and the one that comes next, are those of failures in a row.
pub record IsSound (s : Session) : Type 0 where
  pub connected : s.connections ≡ held s.phase
  pub member : (is_member s.phase ≡ false) ⊎ (1 ≤ s.registrations)
  pub sent : (s.heartbeats ≡ 0) ⊎ (1 ≤ s.registrations)
  pub next : s.backoff ≡ backoff_after (length s.pauses)
  pub paused : Doubles s.pauses

module _ (s : Session) (v : IsSound s) where
  on_look-IsSound : s.phase ≡ at_top → IsSound (on_look s)
  unfolding on_look
  on_look-IsSound p = ground arith

  on_dial-IsSound : (reached : Bool) → s.phase ≡ dialing → IsSound (on_dial reached s)
  unfolding on_dial
  on_dial-IsSound true p = ground arith
  on_dial-IsSound false p = ground arith

  on_register-IsSound :
      (r : Option RegisterNodeResponse) → s.phase ≡ registering → IsSound (on_register r s)
  unfolding on_register backoff_after
  on_register-IsSound none p = ground arith
  on_register-IsSound (some r) p = ground arith

  module _ (i : Duration) (lease : Time) where
    on_greet-IsSound :
        (r : Option HeartbeatResponse) → s.phase ≡ greeting i lease → IsSound (on_greet i lease r s)
    unfolding on_greet
    on_greet-IsSound none p = ground arith
    on_greet-IsSound (some r) p = ground arith

    on_beat-IsSound :
        (r : Option HeartbeatResponse) → s.phase ≡ beating i lease → IsSound (on_beat i lease r s)
    unfolding on_beat
    on_beat-IsSound none p = ground arith
    on_beat-IsSound (some r) p = ground arith

    on_tick-IsSound : (now : Time) → s.phase ≡ waiting i lease → IsSound (on_tick i lease now s)
    unfolding on_tick
    on_tick-IsSound now p = ground arith

  on_wake-IsSound : s.phase ≡ pausing → IsSound (on_wake s)
  unfolding on_wake backoff_after
  on_wake-IsSound p = ground (arith, ap next_backoff v.next)

react-IsSound :
    (p : Phase) (e : Event) (s t : Session)
    → s.phase ≡ p
    → IsSound s
    → react p e s ≡ some t
    → IsSound t
unfolding react
react-IsSound p cancels s t h v r = ground arith
react-IsSound at_top looks s t h v r = ground (arith, on_look-IsSound s v h)
react-IsSound dialing (dials d) s t h v r = ground (arith, on_dial-IsSound s v d h)
react-IsSound registering (registers a) s t h v r = ground (arith, on_register-IsSound s v a h)
react-IsSound (greeting i l) (beats a) s t h v r = ground (arith, on_greet-IsSound s v i l a h)
react-IsSound (waiting i l) (ticks now) s t h v r = ground (arith, on_tick-IsSound s v i l now h)
react-IsSound (waiting i l) is_done s t h v r = ground arith
react-IsSound (beating i l) (beats a) s t h v r = ground (arith, on_beat-IsSound s v i l a h)
react-IsSound pausing wakes s t h v r = ground (arith, on_wake-IsSound s v h)
react-IsSound pausing is_done s t h v r = ground arith
react-IsSound p e s t h v r = cc

new_session-IsSound : IsSound new_session
unfolding new_session backoff_after
new_session-IsSound = record {
  connected = refl;
  member = inl refl;
  sent = inl refl;
  next = refl;
  paused = tt;
}

run_from-IsSound : (es : List Event) (s t : Session) → IsSound s → run es s ≡ some t → IsSound t
unfolding run step
run_from-IsSound [] s t v h = ground arith
run_from-IsSound (e ∷ es) s t v h = elim (Option-cases (step e s)) [
  | inl stuck ↦ cc (ap (λ o. after o (run es)) stuck)
  | inr (u, goes) ↦ run_from-IsSound es u t (react-IsSound s.phase e s u refl v goes) (rw goes at h)
]

-- In every state that the loop can reach exactly the connection of its phase is open, so that every
-- way out closes it; a heartbeat is sent only after a registration; and the pauses since the last
-- registration, with the one that comes next, grow from one second as for failures in a row.
pub run-IsSound : (es : List Event) (s : Session) → run es new_session ≡ some s → IsSound s
run-IsSound es s h = run_from-IsSound es new_session s new_session-IsSound h

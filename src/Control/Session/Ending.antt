-- ===== src/Control/Session/Ending.antt =====
-- How the loop of internal/control/client.go, `Run`, ends, and how it goes round without a pause.
use compute_agent.Base.{
  ℕ, zero, suc, ◌+◌, ◌≤◌, ◌≡◌, ◌⊎◌, inl, inr, refl, ap, ◌∙◌, true, false, none, some, List, [], ◌∷◌,
  length, All, arith, is_some, Option-cases,
}
use compute_agent.Clock.{seconds}
use compute_agent.Control.Messages.{RegisterNodeResponse}
use compute_agent.Control.Session.{
  Phase, at_top, dialing, registering, pausing, stopped, greeting, waiting, beating, Session, Event,
  cancels, looks, dials, registers, beats, ticks, is_done, wakes, on_look, on_dial, on_register,
  on_greet, on_beat, on_tick, on_wake, react, step, run,
}

-- What may follow once the context has ended: a call to the scheduler that begins then fails. A dial
-- may succeed, since it does not wait for the connection.
abbrev pub IsLate : Event → Type 0
IsLate cancels = ⊥
IsLate looks = Unit
IsLate (dials reached) = Unit
IsLate (registers none) = Unit
IsLate (registers (some r)) = ⊥
IsLate (beats none) = Unit
IsLate (beats (some r)) = ⊥
IsLate (ticks now) = Unit
IsLate is_done = Unit
IsLate wakes = Unit

-- The context ends only once.
abbrev pub IsNoEnd : Event → Type 0
IsNoEnd cancels = ⊥
IsNoEnd _ = Unit

-- The first event may answer the call that was under way when the context ended, in any way.
abbrev pub AreLate : List Event → Type 0
AreLate [] = Unit
AreLate (e ∷ es) = IsNoEnd e × All IsLate es

-- How many events may still follow.
abbrev left : Phase → ℕ
left stopped = 0
left at_top = 1
left pausing = 2
left (greeting i lease) = 2
left (beating i lease) = 2
left dialing = 4
left registering = 3
left (waiting i lease) = 3

-- The state after a late event.
record IsNearer (s t : Session) : Type 0 where
  nearer : suc (left t.phase) ≤ left s.phase
  cancelled : t.is_cancelled ≡ true

react-IsNearer :
    (p : Phase) (e : Event) (s t : Session)
    → s.phase ≡ p
    → s.is_cancelled ≡ true
    → IsLate e
    → react p e s ≡ some t
    → IsNearer s t
unfolding react on_look on_dial on_register on_greet on_beat on_tick on_wake
react-IsNearer p cancels s t h c l r = elim l [ ]
react-IsNearer at_top looks s t h c l r = ground arith
react-IsNearer dialing (dials true) s t h c l r = ground arith
react-IsNearer dialing (dials false) s t h c l r = ground arith
react-IsNearer registering (registers none) s t h c l r = ground arith
react-IsNearer registering (registers (some a)) s t h c l r = elim l [ ]
react-IsNearer (greeting i k) (beats none) s t h c l r = ground arith
react-IsNearer (greeting i k) (beats (some a)) s t h c l r = elim l [ ]
react-IsNearer (waiting i k) (ticks now) s t h c l r = ground arith
react-IsNearer (waiting i k) is_done s t h c l r = ground arith
react-IsNearer (beating i k) (beats none) s t h c l r = ground arith
react-IsNearer (beating i k) (beats (some a)) s t h c l r = elim l [ ]
react-IsNearer pausing wakes s t h c l r = ground arith
react-IsNearer pausing is_done s t h c l r = ground arith
react-IsNearer p e s t h c l r = cc

run-left :
    (es : List Event) (s t : Session)
    → s.is_cancelled ≡ true
    → All IsLate es
    → run es s ≡ some t
    → (length es + left t.phase ≤ left s.phase) × (t.is_cancelled ≡ true)
unfolding run step
run-left [] s t c l h = ground arith
run-left (e ∷ es) s t c l h = elim (Option-cases (step e s)) [
  | inl stuck ↦ cc
  | inr (u, goes) ↦
      let n = react-IsNearer s.phase e s u refl c l.0 goes in
      ground (arith, run-left es u t n.cancelled l.1 (rw goes at h))
]

-- An event by which the loop goes on.
abbrev pub GoesOn : Session → Type 0
GoesOn s = (e : Event) × IsLate e × (is_some (step e s) ≡ true)

goes_on :
    (p : Phase) (s : Session)
    → s.is_cancelled ≡ true
    → (p ≡ stopped) ⊎ ((e : Event) × IsLate e × (is_some (react p e s) ≡ true))
unfolding react
goes_on stopped s c = inl refl
goes_on at_top s c = inr (looks, tt, refl)
goes_on pausing s c = inr (wakes, tt, refl)
goes_on dialing s c = inr (dials false, tt, refl)
goes_on registering s c = inr (registers none, tt, refl)
goes_on (greeting i k) s c = inr (beats none, tt, refl)
goes_on (waiting i k) s c = inr (ticks 0, tt, refl)
goes_on (beating i k) s c = inr (beats none, tt, refl)

-- The state after the event that comes first.
record IsEnding (t : Session) : Type 0 where
  ending : left t.phase ≤ 3
  over : t.is_cancelled ≡ true

react-IsEnding :
    (p : Phase) (e : Event) (s t : Session)
    → s.phase ≡ p
    → s.is_cancelled ≡ true
    → IsNoEnd e
    → react p e s ≡ some t
    → IsEnding t
unfolding react on_look on_dial on_register on_greet on_beat on_tick on_wake
react-IsEnding p cancels s t h c l r = elim l [ ]
react-IsEnding at_top looks s t h c l r = ground arith
react-IsEnding dialing (dials true) s t h c l r = ground arith
react-IsEnding dialing (dials false) s t h c l r = ground arith
react-IsEnding registering (registers none) s t h c l r = ground arith
react-IsEnding registering (registers (some a)) s t h c l r = ground arith
react-IsEnding (greeting i k) (beats none) s t h c l r = ground arith
react-IsEnding (greeting i k) (beats (some a)) s t h c l r = ground arith
react-IsEnding (waiting i k) (ticks now) s t h c l r = ground arith
react-IsEnding (waiting i k) is_done s t h c l r = ground arith
react-IsEnding (beating i k) (beats none) s t h c l r = ground arith
react-IsEnding (beating i k) (beats (some a)) s t h c l r = ground arith
react-IsEnding pausing wakes s t h c l r = ground arith
react-IsEnding pausing is_done s t h c l r = ground arith
react-IsEnding p e s t h c l r = cc

-- From the end of the context on, if every call to the scheduler that begins later fails, the loop
-- makes at most four more steps, and as long as it has not stopped it can make one: so it returns.
-- The call that was under way may still be answered in any way, and a dial may succeed or fail.
pub run-stops :
    (es : List Event) (s t : Session)
    → s.is_cancelled ≡ true
    → AreLate es
    → run es s ≡ some t
    → (length es ≤ 4) × ((t.phase ≡ stopped) ⊎ GoesOn t)
unfolding step run
run-stops [] s t c l h = (omega arith, goes_on t.phase t (ground (arith, c, h)))
run-stops (e ∷ es) s t c l h = elim (Option-cases (step e s)) [
  | inl stuck ↦ cc
  | inr (u, goes) ↦
      let n = react-IsEnding s.phase e s u refl c l.0 goes in
      let r = run-left es u t n.over l.1 (rw goes at h) in
      (omega (arith, r.0, n.ending), goes_on t.phase t r.1)
]

-- The loop's head, with no pause since the last registration.
abbrev pub at_head : ℕ → ℕ → Session
at_head registrations heartbeats = record {
  phase = at_top;
  is_cancelled = false;
  backoff = seconds 1;
  connections = 0;
  registrations = registrations;
  heartbeats = heartbeats;
  pauses = [];
}

-- So many registrations, each accepted and followed by a first heartbeat that fails.
abbrev pub rounds : ℕ → RegisterNodeResponse → List Event
rounds zero r = []
rounds (suc n) r = looks ∷ dials true ∷ registers (some r) ∷ beats none ∷ rounds n r

-- If the scheduler accepts registrations and fails first heartbeats, the loop registers again and
-- again without a pause between.
pub run-rounds :
    (n registrations heartbeats : ℕ) (r : RegisterNodeResponse)
    → r.accepted ≡ true
    → run (rounds n r) (at_head registrations heartbeats)
      ≡ some (at_head (n + registrations) heartbeats)
unfolding run step react on_look on_dial on_register on_greet
run-rounds zero k h r accepted = ap (λ (m : ℕ). some (at_head m h)) (omega arith)
run-rounds (suc n) k h r accepted =
    simp accepted
      (run-rounds n (suc k) h r accepted ∙ ap (λ (m : ℕ). some (at_head m h)) (omega arith))

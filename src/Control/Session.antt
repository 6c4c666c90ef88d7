-- ===== src/Control/Session.antt =====
-- internal/control/client.go, `Run`: the loop that registers the node and sends heartbeats, as a
-- machine. Each event is what a call answered, a timer that fired, or the end of the context.
pub mod Soundness
pub mod Ending
pub mod Pauses
use compute_agent.Base.{
  ℕ, suc, ◌-◌, ◌+◌, Bool, true, false, not, ◌&&◌, ◌||◌, Option, none, some, List, [], ◌∷◌, is_some,
  if◌then◌else◌,
}
use compute_agent.Base.Int.{ℤ, pos, ltb_ℤ, scale_int64}
use compute_agent.Models.{Time, zero_time, is_zero_time}
use compute_agent.Clock.{Duration, seconds, is_after}
use compute_agent.Control.Messages.{RegisterNodeResponse, HeartbeatResponse}
use compute_agent.Control.Backoff.{next_backoff}

-- Where the loop stands. `greeting` is the first heartbeat, `waiting` the select on the ticker,
-- `beating` a later heartbeat, `pausing` the sleep.
pub data Phase : Type 0 where
  at_top dialing registering pausing stopped : Phase
  greeting waiting beating : Duration → Time → Phase

-- `connections` counts those that are open, `registrations` and `heartbeats` what was done so far;
-- `pauses` are those since the last registration, the latest first.
pub record Session : Type 0 where
  pub phase : Phase
  pub is_cancelled : Bool
  pub backoff : Duration
  pub connections : ℕ
  pub registrations : ℕ
  pub heartbeats : ℕ
  pub pauses : List Duration

unfoldable pub new_session : Session
new_session = record {
  phase = at_top;
  is_cancelled = false;
  backoff = seconds 1;
  connections = 0;
  registrations = 0;
  heartbeats = 0;
  pauses = [];
}

pub data Event : Type 0 where
  -- the context ends
  cancels : Event
  -- the loop's head reads the context
  looks : Event
  -- `dial` fails or not
  dials : Bool → Event
  -- `register` fails, or answers
  registers : Option RegisterNodeResponse → Event
  -- `heartbeat` fails, or answers
  beats : Option HeartbeatResponse → Event
  -- the ticker fires, at this time
  ticks : Time → Event
  -- a select finds the context ended
  is_done : Event
  -- the timer of the pause fires
  wakes : Event

abbrev pub default_heartbeat : Duration
default_heartbeat = seconds 10

-- `interval`, from seconds that the scheduler gives.
unfoldable pub interval_of : ℤ → Duration
interval_of n =
    let d = scale_int64 n 1_000_000_000 in if ltb_ℤ (pos 0) d then d else default_heartbeat

-- `timestampToTime`
unfoldable pub timestamp_to_time : Option Time → Time
timestamp_to_time none = zero_time
timestamp_to_time (some t) = t

-- A lease without an end does not expire.
abbrev pub has_expired : Time → Time → Bool
has_expired lease now = not (is_zero_time lease) && is_after now lease

-- The lease after a heartbeat.
abbrev pub renewed : Time → Option Time → Time
renewed lease none = lease
renewed lease (some t) = t

abbrev close : Session → Session
close s = record s { connections = s.connections - 1 }

abbrev enter : Phase → Session → Session
enter p s = record s { phase = p }

unfoldable pub on_look : Session → Session
on_look s = enter (if s.is_cancelled then stopped else dialing) s

unfoldable pub on_dial : Bool → Session → Session
on_dial false s = enter pausing s
on_dial true s = enter registering (record s { connections = suc s.connections })

-- The answer to a registration, and what was made of it.
unfoldable pub on_register : Option RegisterNodeResponse → Session → Session
unfolding interval_of timestamp_to_time
on_register none s = enter pausing (close s)
on_register (some r) s =
    if r.accepted
    then enter
        (greeting (interval_of r.heartbeat_interval_seconds) (timestamp_to_time r.lease_expires_at))
        (record s { backoff = seconds 1; registrations = suc s.registrations; pauses = [] })
    else enter pausing (close s)

-- The answer to the first heartbeat, and to a later one.
unfoldable pub on_greet : Duration → Time → Option HeartbeatResponse → Session → Session
on_greet i lease none s = enter at_top (close s)
on_greet i lease (some r) s = enter (waiting i lease) (record s { heartbeats = suc s.heartbeats })

unfoldable pub on_beat : Duration → Time → Option HeartbeatResponse → Session → Session
on_beat i lease none s = enter at_top (close s)
on_beat i lease (some r) s =
    enter (waiting i (renewed lease r.lease_expires_at))
      (record s { heartbeats = suc s.heartbeats })

unfoldable pub on_tick : Duration → Time → Time → Session → Session
on_tick i lease now s =
    if has_expired lease now then enter at_top (close s) else enter (beating i lease) s

-- The end of the pause.
unfoldable pub on_wake : Session → Session
on_wake s =
    enter at_top (record s { pauses = s.backoff ∷ s.pauses; backoff = next_backoff s.backoff })

abbrev if_cancelled : Session → Session → Option Session
if_cancelled s s' = if s.is_cancelled then some s' else none

-- What an event does in a phase; `none` if it cannot happen there.
unfoldable pub react : Phase → Event → Session → Option Session
unfolding on_look on_dial on_register on_greet on_beat on_tick on_wake
react p cancels s = some (record s { is_cancelled = true })
react at_top looks s = some (on_look s)
react dialing (dials reached) s = some (on_dial reached s)
react registering (registers r) s = some (on_register r s)
react (greeting i lease) (beats r) s = some (on_greet i lease r s)
react (waiting i lease) (ticks now) s = some (on_tick i lease now s)
react (waiting i lease) is_done s = if_cancelled s (enter stopped (close s))
react (beating i lease) (beats r) s = some (on_beat i lease r s)
react pausing wakes s = some (on_wake s)
react pausing is_done s = if_cancelled s (enter stopped s)
react p e s = none

unfoldable pub step : Event → Session → Option Session
unfolding react
step e s = react s.phase e s

abbrev pub after : Option Session → (Session → Option Session) → Option Session
after none f = none
after (some s) f = f s

-- A run of the loop.
unfoldable pub run : List Event → Session → Option Session
unfolding step
run [] s = some s
run (e ∷ es) s = after (step e s) (run es)

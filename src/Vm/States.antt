-- ===== src/Vm/States.antt =====
-- internal/runtime/vm.go, lines 292 to 332 and 406 to 546: the states of a domain and what they
-- mean for its workload. A reason without a name of its own is `other`.
use compute_agent.Base.{String, ◌<>◌, Bool, true, false}
use compute_agent.Base.Int.{ℤ, signed_decimal}
use compute_agent.Models
use compute_agent.Models.{ActualState}

pub data PausedReason : Type 0 where
  user migration save dump io_error watchdog from_snapshot shutting_down : PausedReason
  snapshot crashed starting_up postcopy postcopy_failed other : PausedReason

pub data ShutoffReason : Type 0 where
  shutdown destroyed crashed migrated saved failed from_snapshot daemon other : ShutoffReason

pub data RunningReason : Type 0 where
  booted migrated restored from_snapshot unpaused migration_canceled : RunningReason
  save_canceled wakeup crashed postcopy other : RunningReason

-- The state and the reason that `DomainGetState` answers with.
pub data DomainState : Type 0 where
  is_running : RunningReason → DomainState
  is_paused : PausedReason → DomainState
  is_shutoff : ShutoffReason → DomainState
  -- by a user or not
  is_shutdown : Bool → DomainState
  -- by a panic or not
  is_crashed : Bool → DomainState
  is_blocked is_nostate is_pmsuspended is_other : DomainState

paused_text : PausedReason → String
paused_text PausedReason.user = "user"
paused_text PausedReason.migration = "migration"
paused_text PausedReason.save = "save"
paused_text PausedReason.dump = "dump"
paused_text PausedReason.io_error = "io-error"
paused_text PausedReason.watchdog = "watchdog"
paused_text PausedReason.from_snapshot = "from-snapshot"
paused_text PausedReason.shutting_down = "shutting-down"
paused_text PausedReason.snapshot = "snapshot"
paused_text PausedReason.crashed = "crashed"
paused_text PausedReason.starting_up = "starting-up"
paused_text PausedReason.postcopy = "postcopy"
paused_text PausedReason.postcopy_failed = "postcopy-failed"
paused_text PausedReason.other = "unknown"

shutoff_text : ShutoffReason → String
shutoff_text ShutoffReason.shutdown = "shutdown"
shutoff_text ShutoffReason.destroyed = "destroyed"
shutoff_text ShutoffReason.crashed = "crashed"
shutoff_text ShutoffReason.migrated = "migrated"
shutoff_text ShutoffReason.saved = "saved"
shutoff_text ShutoffReason.failed = "failed"
shutoff_text ShutoffReason.from_snapshot = "from-snapshot"
shutoff_text ShutoffReason.daemon = "daemon"
shutoff_text ShutoffReason.other = "unknown"

running_text : RunningReason → String
running_text RunningReason.booted = "booted"
running_text RunningReason.migrated = "migrated"
running_text RunningReason.restored = "restored"
running_text RunningReason.from_snapshot = "from-snapshot"
running_text RunningReason.unpaused = "unpaused"
running_text RunningReason.migration_canceled = "migration-canceled"
running_text RunningReason.save_canceled = "save-canceled"
running_text RunningReason.wakeup = "wakeup"
running_text RunningReason.crashed = "crashed"
running_text RunningReason.postcopy = "postcopy"
running_text RunningReason.other = "unknown"

-- `vmDomainReasonText`
unfoldable pub reason_text : DomainState → String
unfolding paused_text shutoff_text running_text
reason_text (is_running r) = running_text r
reason_text (is_paused r) = paused_text r
reason_text (is_shutoff r) = shutoff_text r
reason_text (is_shutdown true) = "user"
reason_text (is_shutdown false) = "unknown"
reason_text (is_crashed true) = "panicked"
reason_text (is_crashed false) = "unknown"
reason_text is_blocked = "unknown"
reason_text is_nostate = "unknown"
reason_text is_pmsuspended = "unknown"
reason_text is_other = "unknown"

-- `vmDomainStateName`
unfoldable pub state_name : DomainState → String
state_name (is_running r) = "running"
state_name (is_paused r) = "paused"
state_name (is_shutoff r) = "shutoff"
state_name (is_shutdown b) = "shutdown"
state_name (is_crashed b) = "crashed"
state_name is_blocked = "blocked"
state_name is_nostate = "nostate"
state_name is_pmsuspended = "pmsuspended"
state_name is_other = "unknown"

-- `state == DomainShutoff || state == DomainShutdown`
abbrev pub is_off : DomainState → Bool
is_off (is_shutoff r) = true
is_off (is_shutdown b) = true
is_off (is_running r) = false
is_off (is_paused r) = false
is_off (is_crashed b) = false
is_off is_blocked = false
is_off is_nostate = false
is_off is_pmsuspended = false
is_off is_other = false

-- What `Status` answers for a state; the two numbers are libvirt's for state and reason.
unfoldable pub actual_state : DomainState → ℤ → ℤ → ActualState × String
unfolding reason_text state_name
actual_state (is_running r) n k =
    (Models.running, "running (reason=" <> reason_text (is_running r) <> ")")
actual_state (is_paused r) n k =
    (Models.pending, "paused (runtime frozen, reason=" <> reason_text (is_paused r) <> ")")
actual_state (is_shutdown b) n k =
    (Models.stopped, "shutdown (reason=" <> reason_text (is_shutdown b) <> ")")
actual_state (is_shutoff r) n k =
    (Models.stopped, "shutdown (reason=" <> reason_text (is_shutoff r) <> ")")
actual_state (is_crashed b) n k =
    (Models.failed, "crashed (reason=" <> reason_text (is_crashed b) <> ")")
actual_state is_blocked n k =
    (Models.pending, state_name is_blocked <> " (reason=" <> reason_text is_blocked <> ")")
actual_state is_nostate n k =
    (Models.pending, state_name is_nostate <> " (reason=" <> reason_text is_nostate <> ")")
actual_state is_pmsuspended n k =
    (Models.unknown, "unknown state=" <> signed_decimal n <> " reason=" <> signed_decimal k)
actual_state is_other n k =
    (Models.unknown, "unknown state=" <> signed_decimal n <> " reason=" <> signed_decimal k)

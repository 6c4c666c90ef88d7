-- ===== src/Examples/Nodes.antt =====
-- Examples of the configuration and of the scheduler's client (internal/config/config.go,
-- internal/control/client.go).
use Prim.Native.Nat.{min}
use compute_agent.Base.{
  ◌+◌, ◌^◌, ◌≤◌, ◌≡◌, ◌↔◌, ◌⊎◌, refl, true, false, none, some, List, [], ◌∷◌, length,
}
use compute_agent.Base.Int.{pos, scale_int64}
use compute_agent.Clock.{seconds}
use compute_agent.Errors.{ok}
use compute_agent.Config.{Surroundings, default_config, validate}
use compute_agent.Config.Validation.{IsValid, validate-IsValid}
use compute_agent.Config.Load.{complete, load}
use compute_agent.Config.Load.Ready.{IsReady, load-IsReady}
use compute_agent.Control.Messages.{RegisterNodeResponse}
use compute_agent.Control.Backoff.{next_backoff}
use compute_agent.Control.Session.{
  stopped, dialing, waiting, Session, new_session, Event, looks, dials, registers, beats, wakes,
  run, step, react, on_look, on_dial, on_register, on_greet, on_wake, interval_of,
  timestamp_to_time,
}
use compute_agent.Control.Session.Soundness.{IsSound, run-IsSound}
use compute_agent.Control.Session.Ending.{GoesOn, run-stops, at_head, rounds, run-rounds}
use compute_agent.Control.Session.Pauses.{pauses_of, run-pauses}
use compute_agent.Control.Capabilities.{supported_storage_drivers}
use compute_agent.Control.Capabilities.Drivers.{
  once, times, has_nfs, has_ceph, supported_storage_drivers-times,
}

abbrev host : Surroundings
host = record {
  labels_env = "";
  read_error = none;
  is_file_missing = true;
  unmarshal = λ labels c. ok c;
  goos = "linux";
  goarch = "amd64";
  unique_node_id = ok "node-1";
  hostname = ok "node";
  quote = λ s. s;
  euid = 0;
  home = ok "/root";
  join_path = λ a b. a;
}

validate-IsValid_example : (validate (λ s. s) default_config ≡ none) ↔ IsValid default_config
validate-IsValid_example = validate-IsValid (λ s. s) default_config

load-IsReady_example :
    IsValid (complete host default_config) × IsReady (complete host default_config)
unfolding load validate default_config complete
load-IsReady_example = load-IsReady host (complete host default_config) refl

abbrev answer : RegisterNodeResponse
answer = record {
  accepted = true;
  reason = "";
  heartbeat_interval_seconds = pos 5;
  lease_expires_at = none;
}

-- One failure, a registration and a heartbeat.
abbrev day : List Event
day =
    looks
    ∷ dials false
    ∷ wakes
    ∷ looks
    ∷ dials true
    ∷ registers (some answer)
    ∷ beats (some (record { acknowledged = true; drain_node = false; lease_expires_at = none }))
    ∷ []

abbrev working : Session
working = record {
  phase = waiting (interval_of (pos 5)) (timestamp_to_time none);
  is_cancelled = false;
  backoff = seconds 1;
  connections = 1;
  registrations = 1;
  heartbeats = 1;
  pauses = [];
}

run-IsSound_example : IsSound working
unfolding run step react on_look on_dial on_register on_greet on_wake new_session
run-IsSound_example = run-IsSound day working refl

-- The context ends while the client dials.
abbrev late : Session
late = record {
  phase = dialing;
  is_cancelled = true;
  backoff = seconds 1;
  connections = 0;
  registrations = 0;
  heartbeats = 0;
  pauses = [];
}

abbrev late_end : Session
late_end = record late { phase = stopped; backoff = seconds 2; pauses = seconds 1 ∷ [] }

run-stops_example : (4 ≤ 4) × ((stopped ≡ stopped) ⊎ GoesOn late_end)
unfolding run step react on_look on_dial on_register on_wake next_backoff scale_int64
run-stops_example =
    run-stops (dials true ∷ registers none ∷ wakes ∷ looks ∷ []) late late_end refl
      (tt, (tt, (tt, (tt, tt)))) refl

-- Two failures in a row.
abbrev failing : Session
failing = record new_session { backoff = seconds 4; pauses = seconds 2 ∷ seconds 1 ∷ [] }

run-pauses_example : (failing.pauses ≡ pauses_of 2) × (failing.backoff ≡ seconds (min (2 ^ 2) 30))
unfolding run step react on_look on_dial on_register on_wake next_backoff scale_int64 new_session
run-pauses_example =
    run-pauses (looks ∷ dials false ∷ wakes ∷ looks ∷ dials true ∷ registers none ∷ wakes ∷ [])
      failing refl

run-rounds_example : run (rounds 4 answer) (at_head 0 0) ≡ some (at_head (4 + 0) 0)
run-rounds_example = run-rounds 4 0 0 answer refl

supported_storage_drivers-times_example :
    let ds = supported_storage_drivers default_config in
    (times "local" ds ≡ 1)
    × (times "nfs" ds ≡ once (has_nfs default_config))
    × (times "ceph-rbd" ds ≡ once (has_ceph default_config))
    × (length ds ≡ 1 + once (has_nfs default_config) + once (has_ceph default_config))
supported_storage_drivers-times_example = supported_storage_drivers-times default_config

-- ===== src/Examples/Loads.antt =====
-- Examples of the resource monitor (internal/resources/monitor.go) and of compose projects
-- (internal/runtime/compose.go).
use compute_agent.Errors.{plain, ok, err}
use compute_agent.Compose.{Host, Question, compose_all, docker_all, status}
use compute_agent.Compose.Counts.{IsTrue, status-IsTrue}
use compute_agent.Base.{true, ◌≡◌, ◌↔◌, none, [], ◌∷◌, ltb}
use compute_agent.Workload.World.{available}
use compute_agent.Resources.{
  Floats, Readings, read, failed, Monitor, new_monitor, get_utilization, is_resource_available,
}
use compute_agent.Resources.Limits.{Fits, is_resource_available_iff}

abbrev floats : Floats
floats = record {
  zero_percent = record { bits = 0 };
  percent = λ n. record { bits = n };
  is_above = λ a b. ltb b.bits a.bits;
  show = λ a. "";
}

-- The processors are busy, and no disk can be read.
abbrev busy : Readings
busy = record {
  now = 7;
  memory_percent = read (record { bits = 40 });
  memory_available = read 4_000_000_000;
  cpu_total = read (record { bits = 95 } ∷ []);
  cpu_each = read (record { bits = 95 } ∷ []);
  disk_usage = λ p. failed "no such file";
}

abbrev monitor : Monitor
monitor = new_monitor floats none

is_resource_available_iff_example :
    ((is_resource_available floats busy monitor).0 ≡ available)
    ↔ Fits floats monitor.thresholds (get_utilization floats busy ("/" ∷ []) monitor).0
is_resource_available_iff_example = is_resource_available_iff floats busy monitor

-- Compose fails, and docker lists two containers of which one runs.
abbrev project_host : Host
project_host = record {
  has_project = λ id. true;
  containers = λ qs. elim qs [
    | [] ↦ ok []
    | q ∷ qs ↦ elim q [
      | compose_all ↦ err (plain "no such service")
      | Question.compose_running ↦ err (plain "no such service")
      | docker_all ↦ ok ("a" ∷ "b" ∷ [])
      | Question.docker_running ↦ ok ("a" ∷ [])
    ]
  ];
}

status-IsTrue_example :
    IsTrue project_host "web" [] (status project_host "web" []).0 (status project_host "web" []).1
status-IsTrue_example = status-IsTrue project_host "web" []

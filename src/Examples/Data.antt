-- ===== src/Examples/Data.antt =====
-- A node with a container runtime, its clock and its answers, for the examples.
use compute_agent.Base.{suc, ◌*◌, ◌-◌, ◌^◌, Bool, true, false, none, [], ◌∷◌}
use compute_agent.Base.Int.{pos}
use compute_agent.Models.{
  zero_time, container, compose, vm, other_type, WorkloadType, DesiredState, ActualState, Workload,
  WorkloadStatus, no_fields,
}
use compute_agent.Volumes.{VolumeAttachment}
use compute_agent.Errors.{plain, ok, err}
use compute_agent.Retry.Tracker.{Backoff, RetryTracker, default_retry_policy}
use compute_agent.State.{Buckets}
use compute_agent.Workload.World.{Env, World, new_world, available}

abbrev pub backoff : Backoff
backoff = λ d f n. pos (5 * 2 ^ (n - 1))

abbrev pub is_container : WorkloadType → Bool
is_container container = true
is_container compose = false
is_container vm = false
is_container (other_type s) = false

-- The runtime reports `actual` of every workload.
abbrev pub node : ActualState → Env
node actual = record {
  clock = λ n. suc n;
  transaction_error = λ n. none;
  format_time = λ t. "then";
  format_utc = λ t. "then";
  parse_time = λ s. none;
  backoff = backoff;
  has_runtime = is_container;
  provides_metadata = λ t. false;
  has_resource_monitor = false;
  has_volume_manager = false;
  action_error = λ cs. none;
  status_answer = λ cs. ok (actual, "connection refused");
  metadata_answer = λ cs. ok [];
  list_answer = λ cs. ok ("web" ∷ "old" ∷ []);
  availability = λ cs. available;
  provision_answer = λ cs. err (plain "no volumes");
  attach_answer = λ cs. err (plain "no volumes");
  decode_container = λ f. err (plain "no specification");
  encode_container = λ s. ok no_fields;
  decode_vm = λ f. err (plain "no specification");
  encode_vm = λ s. ok no_fields;
  quote = λ s. s;
}

abbrev pub web : DesiredState → Workload
web desired = record {
  id = "web";
  kind = container;
  revision_id = "r1";
  desired_state = desired;
  spec = no_fields;
  created_at = 1;
  updated_at = 1;
}

abbrev pub web_status : DesiredState → ActualState → WorkloadStatus
web_status desired actual = record {
  id = "web";
  kind = container;
  revision_id = "r1";
  desired_state = desired;
  actual_state = actual;
  message = "";
  created_at = 1;
  updated_at = 1;
  metadata = [];
  usage = none;
}

abbrev pub web_attachment : VolumeAttachment
web_attachment = record {
  id = "web-data";
  volume_id = "data";
  workload_id = "web";
  mount_path = "/data";
  read_only = false;
  stage_path = "";
  metadata = [];
  created_at = 1;
  updated_at = 1;
}

abbrev pub stored : DesiredState → ActualState → Buckets
stored desired actual = record {
  workloads = ("web", web desired) ∷ [];
  statuses = ("web", web_status desired actual) ∷ [];
  volumes = [];
  attachments = ("web-data", web_attachment) ∷ [];
}

abbrev pub world_of : DesiredState → ActualState → World
world_of desired actual = record new_world { buckets = stored desired actual }

abbrev pub fresh_tracker : RetryTracker
fresh_tracker = record {
  policy = default_retry_policy;
  failure_history = [];
  next_retry_time = zero_time;
}

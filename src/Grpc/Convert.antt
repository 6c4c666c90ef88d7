-- ===== src/Grpc/Convert.antt =====
-- internal/grpc/server.go, lines 580 to 746: between messages and the agent's own models.
use compute_agent.Base.{
  ℕ, ◌/◌, ◌<>◌, String, Option, none, some, trim_space, lower_codes, codes, if◌then◌else◌,
}
use compute_agent.Base.Int.{ℤ, pos, negsuc, sub_ℕ, wrap_int64}
use compute_agent.Models
use compute_agent.Models.{Time, Fields, Workload, WorkloadUsage}
use compute_agent.Errors.{error_text, plain, Result, ok, err}
use compute_agent.Workload.Status.{same_codes}
use compute_agent.Grpc.Messages.{
  WorkloadType, type_unspecified, type_container, type_compose, type_vm, type_number, DesiredState,
  desired_unspecified, desired_running, desired_stopped, desired_number, ActualState,
  actual_pending, actual_running, actual_stopped, actual_failed, actual_unknown, ContainerSpec,
  ComposeSpec, VmSpec, WorkloadSpec, no_spec, container_spec, compose_spec, vm_spec,
  ApplyWorkloadRequest, WorkloadUsageSnapshot, WorkloadStatus,
}

-- `encoding/json` on the generated messages, and into a map.
pub record Codec : Type 0 where
  pub marshal_container : ContainerSpec → Result String
  pub marshal_compose : ComposeSpec → Result String
  pub marshal_vm : VmSpec → Result String
  pub unmarshal : String → Result Fields

-- Seconds from Go's zero time to the Unix epoch.
abbrev pub epoch : ℕ
epoch = 62_135_596_800

-- `Time.Unix`
unfoldable pub unix : Time → ℤ
unix t = sub_ℕ (t / 1_000_000_000) epoch

-- `Time.UnixNano`
unfoldable pub unix_nano : Time → ℤ
unfolding wrap_int64
unix_nano t = wrap_int64 (sub_ℕ t 62_135_596_800_000_000_000)

-- `protoToWorkloadType`
unfoldable pub proto_to_workload_type : WorkloadType → Models.WorkloadType
proto_to_workload_type type_container = Models.container
proto_to_workload_type type_compose = Models.compose
proto_to_workload_type type_vm = Models.vm
proto_to_workload_type type_unspecified = Models.container
proto_to_workload_type (type_number n) = Models.container

-- `protoToDesiredState`
unfoldable pub proto_to_desired_state : DesiredState → Models.DesiredState
proto_to_desired_state desired_running = Models.desired_running
proto_to_desired_state desired_stopped = Models.desired_stopped
proto_to_desired_state desired_unspecified = Models.desired_running
proto_to_desired_state (desired_number n) = Models.desired_running

-- `workloadTypeToProto`
unfoldable pub workload_type_to_proto : Models.WorkloadType → WorkloadType
workload_type_to_proto Models.container = type_container
workload_type_to_proto Models.compose = type_compose
workload_type_to_proto Models.vm = type_vm
workload_type_to_proto (Models.other_type s) = type_unspecified

-- `desiredStateToProto`
unfoldable pub desired_state_to_proto : Models.DesiredState → DesiredState
desired_state_to_proto Models.desired_running = desired_running
desired_state_to_proto Models.desired_stopped = desired_stopped
desired_state_to_proto (Models.other_desired s) = desired_unspecified

-- `actualStateToProto`
unfoldable pub actual_state_to_proto : Models.ActualState → ActualState
actual_state_to_proto Models.pending = actual_pending
actual_state_to_proto Models.running = actual_running
actual_state_to_proto Models.stopped = actual_stopped
actual_state_to_proto Models.failed = actual_failed
actual_state_to_proto Models.unknown = actual_unknown

-- `sWorkloadType`
unfoldable pub text_to_workload_type : String → WorkloadType
text_to_workload_type t =
    let s = lower_codes (trim_space t) in
    if same_codes s (codes "container")
    then type_container
    else if same_codes s (codes "compose")
    then type_compose
    else if same_codes s (codes "vm")
    then type_vm
    else type_unspecified

abbrev not_negative : ℤ → ℤ
not_negative (pos n) = pos n
not_negative (negsuc n) = pos 0

-- `statusUsageToProto`
unfoldable pub usage_to_proto : Option WorkloadUsage → Option WorkloadUsageSnapshot
unfolding unix text_to_workload_type
usage_to_proto none = none
usage_to_proto (some u) = some (record {
  workload_id = u.workload_id;
  kind = text_to_workload_type u.kind;
  cpu_percent = u.cpu_percent;
  memory_bytes = u.memory_bytes;
  disk_read_bytes = u.disk_read_bytes;
  disk_write_bytes = u.disk_write_bytes;
  net_rx_bytes = u.net_rx_bytes;
  net_tx_bytes = u.net_tx_bytes;
  collected_at = not_negative (unix u.collected_at);
  source = u.source;
})

-- `statusToProto`
unfoldable pub status_to_proto : Models.WorkloadStatus → WorkloadStatus
status_to_proto s = record {
  id = s.id;
  kind = workload_type_to_proto s.kind;
  revision_id = s.revision_id;
  desired_state = desired_state_to_proto s.desired_state;
  actual_state = actual_state_to_proto s.actual_state;
  message = s.message;
  created_at = unix s.created_at;
  updated_at = unix s.updated_at;
  metadata = s.metadata;
  usage = usage_to_proto s.usage;
}

-- `json.Marshal` and then `json.Unmarshal`, with the name of the kind in the errors.
abbrev decoded : String → (String → Result Fields) → Result String → Result Fields
decoded name unmarshal (err e) =
    err (plain ("failed to marshal " <> name <> " spec: " <> error_text e))
decoded name unmarshal (ok s) = elim (unmarshal s) [
  | ok m ↦ ok m
  | err e ↦ err (plain ("failed to unmarshal " <> name <> " spec: " <> error_text e))
]

-- The map that a request's specification becomes.
unfoldable pub spec_map : Codec → WorkloadSpec → Result Fields
spec_map c no_spec = err (plain "spec must contain container, compose, or vm specification")
spec_map c (container_spec s) = decoded "container" c.unmarshal (c.marshal_container s)
spec_map c (compose_spec s) = decoded "compose" c.unmarshal (c.marshal_compose s)
spec_map c (vm_spec s) = decoded "vm" c.unmarshal (c.marshal_vm s)

-- The workload that `protoToWorkload` makes of a request, at two readings of the clock.
unfoldable pub request_workload : ApplyWorkloadRequest → Fields → Time → Time → Workload
request_workload req spec created updated = record {
  id = req.id;
  kind = proto_to_workload_type req.kind;
  revision_id = req.revision_id;
  desired_state = proto_to_desired_state req.desired_state;
  spec = spec;
  created_at = created;
  updated_at = updated;
}

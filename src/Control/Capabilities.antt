-- ===== src/Control/Capabilities.antt =====
-- internal/control/client.go, lines 193 to 234, 336 to 399 and 445 to 522: what the agent says of
-- its node. What the operating system and the network answer is a parameter.
pub mod Drivers
use compute_agent.Base.{
  ℕ, ◌<>◌, ◌/◌, ◌==◌, String, Bool, true, false, not, ◌&&◌, ◌||◌, Option, none, some, List, [], ◌∷◌,
  ◌++◌, str_eq, is_blank, trim_space, lower, any, if◌then◌else◌,
}
use compute_agent.Base.Int.{ℤ, pos, negsuc, wrap_int64, scale_int64, signed_decimal}
use compute_agent.Base.Dict
use compute_agent.Base.Dict.{Dict}
use compute_agent.Models.{Time, Float64, WorkloadType, container, compose, vm}
use compute_agent.Errors.{Err, plain, error_text, Result, ok, err}
use compute_agent.Workload.World.{Env, M, pure, ◌>>=◌, on_result, now}
use compute_agent.Workload.Status.{equal_fold, or_empty}
use compute_agent.Config.{Config}
use compute_agent.Control.Messages.{
  StoragePool, NodeCapabilities, NodeUsage, RegisterNodeRequest, HeartbeatRequest,
}
use compute_agent.Control.Report.{workload_statuses, workload_usage}

pub record DiskStats : Type 0 where
  pub total : ℕ
  pub used : ℕ

pub record MemoryStats : Type 0 where
  pub total : ℕ
  pub used : ℕ

-- What `gopsutil`, the resource monitor and the network answer. `part` is
-- `int64(math.Round(float64(total) * (percent / 100.0)))`.
pub record Probes : Type 0 where
  pub cpu_count : Result ℕ
  pub memory : Result MemoryStats
  -- the answers to one question after the other
  pub root_disk : ℕ → Result DiskStats
  -- the utilization of CPU and of the root mount, if the monitor gives any
  pub utilization : Option (Float64 × Option Float64)
  pub part : ℤ → Float64 → ℤ
  pub outbound_ip : String → Result String
  pub first_ip : Result String
  pub join_host_port : String → String → String
  -- the runtime manager's answers, if there is one
  pub runtimes : Option (WorkloadType → Bool)

abbrev gib : ℕ → ℕ
gib n = n / 1024 / 1024 / 1024

abbrev mib : ℕ → ℕ
mib n = n / 1024 / 1024

-- A name, if it is enabled.
abbrev when : Bool → String → List String
when b s = if b then s ∷ [] else []

abbrev types_of : Bool → Bool → Bool → List String
types_of c d v = when c "container" ++ (when d "compose" ++ when v "vm")

-- `supportedWorkloadTypes`
unfoldable pub supported_workload_types : Config → Option (WorkloadType → Bool) → List String
supported_workload_types c none = types_of c.docker_enabled c.compose_enabled c.vm_enabled
supported_workload_types c (some is_enabled) =
    types_of (is_enabled container) (is_enabled compose) (is_enabled vm)

-- `appendUniqueDriver`: the drivers, and the names that were seen.
unfoldable pub append_unique_driver : List String × List String → String → List String × List String
append_unique_driver (drivers, seen) driver =
    let name = lower (trim_space driver) in
    if is_blank name || any (λ s. str_eq s name) seen
    then (drivers, seen)
    else (drivers ++ name ∷ [], name ∷ seen)

abbrev append_if : Bool → String → List String × List String → List String × List String
append_if b driver acc = if b then append_unique_driver acc driver else acc

abbrev pub is_given : String → Bool
is_given s = not (is_blank (trim_space s))

-- `strings.EqualFold(strings.TrimSpace(c.cfg.NodeLabels[key]), "true")`
abbrev pub has_label : String → Config → Bool
has_label key c = equal_fold (trim_space (or_empty (Dict.get key c.node_labels))) "true"

-- The drivers that five tests select, in the order of the tests.
unfoldable pub select_drivers : Bool → Bool → Bool → Bool → Bool → List String
unfolding append_unique_driver
select_drivers nfs ceph nfs_label ceph_label ceph_label' =
    (append_if ceph_label' "ceph-rbd" (
      append_if ceph_label "ceph-rbd" (
        append_if nfs_label "nfs"
          (append_if ceph "ceph-rbd" (append_if nfs "nfs" ("local" ∷ [], "local" ∷ [])))))).0

-- `supportedStorageDrivers`
unfoldable pub supported_storage_drivers : Config → List String
unfolding select_drivers
supported_storage_drivers c =
    select_drivers (is_given c.storage_nfs_server && is_given c.storage_nfs_export)
      (is_given c.storage_ceph_pool) (has_label "storage.nfs" c) (has_label "storage.ceph_rbd" c)
      (has_label "storage.ceph-rbd" c)

-- `isWildcardHost`
unfoldable pub is_wildcard_host : String → Bool
is_wildcard_host host =
    let h = trim_space host in is_blank h || str_eq h "0.0.0.0" || str_eq h "::" || str_eq h "[::]"

abbrev or_else : Result String → String → String
or_else (err e) other = other
or_else (ok ip) other = if is_blank ip then other else ip

-- The host that is advertised.
unfoldable pub advertised_host : Config → Probes → String
unfolding is_wildcard_host
advertised_host c p =
    if is_wildcard_host c.grpc_addr || equal_fold c.grpc_addr "localhost"
    then or_else (p.outbound_ip c.scheduler_addr) (or_else p.first_ip "127.0.0.1")
    else c.grpc_addr

-- `agentEndpoint`
unfoldable pub agent_endpoint : Config → Probes → String
unfolding advertised_host
agent_endpoint c p =
    if is_blank c.agent_grpc_endpoint
    then p.join_host_port (advertised_host c p) (signed_decimal c.grpc_port)
    else c.agent_grpc_endpoint

abbrev root_pool : Result DiskStats → List StoragePool
root_pool (err e) = []
root_pool (ok d) =
    record { name = "root"; kind = "local"; total_gb = wrap_int64 (pos (gib d.total)) } ∷ []

abbrev millicores : ℕ → ℤ
millicores n = scale_int64 (pos n) 1000

-- `nodeCapabilities`
unfoldable pub node_capabilities : List String → List String → Probes → Result NodeCapabilities
node_capabilities types drivers p = elim p.cpu_count [
  | err e ↦ err (plain ("failed to get CPU count: " <> error_text e))
  | ok count ↦ elim p.memory [
    | err e ↦ err (plain ("failed to get memory stats: " <> error_text e))
    | ok m ↦ ok (record {
      cpu_total_millicores = millicores count;
      memory_total_mb = wrap_int64 (pos (mib m.total));
      storage_pools = root_pool (p.root_disk 0);
      supported_workload_types = types;
      supported_storage_drivers = drivers;
    })
  ]
]

abbrev count_or_zero : Result ℕ → ℤ
count_or_zero (err e) = pos 0
count_or_zero (ok n) = millicores n

abbrev memory_used : Result MemoryStats → ℤ
memory_used (err e) = pos 0
memory_used (ok m) = wrap_int64 (pos (mib m.used))

-- The disk use that the monitor's percentage gives, and whether the disk was asked for it.
abbrev disk_part : Probes → Option Float64 → ℤ × ℕ
disk_part p none = (pos 0, 0)
disk_part p (some x) =
    (elim (p.root_disk 0) [ err e ↦ pos 0 | ok d ↦ p.part (wrap_int64 (pos (gib d.total))) x ], 1)

abbrev used_parts : Probes → Option (Float64 × Option Float64) → ℤ × (ℤ × ℕ)
used_parts p none = (pos 0, (pos 0, 0))
used_parts p (some (cpu, disk)) = (p.part (count_or_zero p.cpu_count) cpu, disk_part p disk)

abbrev is_zero_ℤ : ℤ → Bool
is_zero_ℤ (pos n) = n == 0
is_zero_ℤ (negsuc n) = false

-- The disk use, from what the disk says if no other is known.
abbrev disk_used : ℤ → Result DiskStats → ℤ
disk_used used (err e) = used
disk_used used (ok d) = if is_zero_ℤ used then wrap_int64 (pos (gib d.used)) else used

-- `nodeUsage`
unfoldable pub node_usage : Probes → NodeUsage
node_usage p =
    let parts = used_parts p p.utilization in
    record {
      cpu_allocated_millicores = pos 0;
      cpu_used_millicores = parts.0;
      memory_allocated_mb = pos 0;
      memory_used_mb = memory_used p.memory;
      disk_allocated_gb = pos 0;
      disk_used_gb = disk_used parts.1.0 (p.root_disk parts.1.1);
    }

abbrev registration : Config → Probes → NodeCapabilities → Time → RegisterNodeRequest
registration c p n t = record {
  node_id = c.node_id;
  capabilities = n;
  labels = c.node_labels;
  agent_version = c.version;
  grpc_endpoint = agent_endpoint c p;
  cluster_id = "";
  timestamp = t;
}

module _ (env : Env) where
  -- The request of `register`, if it is made.
  unfoldable pub register_request : Config → Probes → M (Result RegisterNodeRequest)
  unfolding supported_workload_types supported_storage_drivers node_capabilities agent_endpoint
  register_request c p =
      on_result
        (node_capabilities (supported_workload_types c p.runtimes) (supported_storage_drivers c) p)
        (λ n. do t ← now env; pure (ok (registration c p n t))) (λ e. pure (err e))

  -- The request of `heartbeat`.
  unfoldable pub heartbeat_request : Config → Probes → M HeartbeatRequest
  unfolding node_usage
  heartbeat_request c p = do
    statuses ← workload_statuses env
    t ← now env
    pure (record {
      node_id = c.node_id;
      usage = node_usage p;
      workload_statuses = statuses;
      timestamp = t;
      workload_usage = workload_usage statuses;
    })

-- ===== src/Config.antt =====
-- internal/config/config.go: the configuration of the agent. Viper, which merges the file, the
-- environment and the defaults, is a parameter; what is made of its result is modelled.
pub mod Labels
pub mod Validation
pub mod Load
use compute_agent.Base.{
  ℕ, ◌*◌, ◌<>◌, String, Bool, true, false, not, ◌&&◌, ◌||◌, Option, none, some, List, [], ◌∷◌, ◌++◌,
  is_blank, is_some, ◌==◌, codes, lower_codes, if◌then◌else◌,
}
use compute_agent.Base.Int.{ℤ, pos, ltb_ℤ, signed_decimal}
use compute_agent.Base.Dict
use compute_agent.Base.Dict.{Dict}
use compute_agent.Clock.{Duration, seconds}
use compute_agent.Errors.{Err, plain, error_text, Result, ok, err}
use compute_agent.Workload.Status.{same_codes}

pub record Config : Type 0 where
  pub grpc_addr : String
  pub grpc_port : ℤ
  pub metrics_port : ℤ
  pub tls_enabled : Bool
  pub tls_cert_path : String
  pub tls_key_path : String
  pub tls_ca_path : String
  pub vault_enabled : Bool
  pub vault_addr : String
  pub vault_auth_method : String
  pub vault_token : String
  pub vault_app_role_id : String
  pub vault_app_secret_id : String
  pub vault_pki_mount : String
  pub vault_pki_role : String
  pub vault_cert_ttl : Duration
  pub vault_service_name : String
  pub vault_service_domain : String
  pub vault_retry_interval : Duration
  pub state_store_path : String
  pub docker_enabled : Bool
  pub docker_endpoint : String
  pub compose_enabled : Bool
  pub compose_binary : String
  pub vm_enabled : Bool
  pub libvirt_uri : String
  pub storage_local_root : String
  pub storage_nfs_stage_dir : String
  pub storage_nfs_server : String
  pub storage_nfs_export : String
  pub storage_nfs_options : String
  pub storage_ceph_stage_dir : String
  pub storage_ceph_cluster : String
  pub storage_ceph_pool : String
  pub storage_ceph_user : String
  pub storage_ceph_keyring : String
  pub reconcile_interval : Duration
  pub reconcile_enabled : Bool
  pub log_level : String
  pub node_id : String
  pub version : String
  pub node_region : String
  pub node_env : String
  pub node_labels : Dict String
  pub scheduler_addr : String
  pub scheduler_insecure : Bool
  pub scheduler_tls_enabled : Bool
  pub agent_grpc_endpoint : String
  pub otel_exporter_endpoint : String

-- `defaultConfig`
unfoldable pub default_config : Config
default_config = record {
  grpc_addr = "0.0.0.0";
  grpc_port = pos 50051;
  metrics_port = pos 8089;
  tls_enabled = true;
  tls_cert_path = "/etc/persys/certs/agent/compute-agent.pem";
  tls_key_path = "/etc/persys/certs/agent/compute-agent-key.pem";
  tls_ca_path = "/etc/persys/certs/agent/ca.pem";
  vault_enabled = false;
  vault_addr = "http://localhost:8200";
  vault_auth_method = "approle";
  vault_token = "";
  vault_app_role_id = "";
  vault_app_secret_id = "";
  vault_pki_mount = "pki";
  vault_pki_role = "compute-agent";
  vault_cert_ttl = seconds 86400;
  vault_service_name = "";
  vault_service_domain = "";
  vault_retry_interval = seconds 120;
  state_store_path = "/var/lib/persys/state.db";
  docker_enabled = true;
  docker_endpoint = "unix:///var/run/docker.sock";
  compose_enabled = true;
  compose_binary = "docker compose";
  vm_enabled = true;
  libvirt_uri = "qemu:///system";
  storage_local_root = "/var/lib/persys/volumes/local";
  storage_nfs_stage_dir = "/var/lib/persys/volumes/nfs";
  storage_nfs_server = "";
  storage_nfs_export = "";
  storage_nfs_options = "";
  storage_ceph_stage_dir = "/var/lib/persys/volumes/ceph-rbd";
  storage_ceph_cluster = "";
  storage_ceph_pool = "";
  storage_ceph_user = "";
  storage_ceph_keyring = "";
  reconcile_interval = seconds 30;
  reconcile_enabled = true;
  log_level = "info";
  node_id = "";
  version = "";
  node_region = "";
  node_env = "";
  node_labels = [];
  scheduler_addr = "127.0.0.1:8085";
  scheduler_insecure = false;
  scheduler_tls_enabled = false;
  agent_grpc_endpoint = "";
  otel_exporter_endpoint = "";
}

-- `port < 1 || port > 65535`
abbrev pub is_bad_port : ℤ → Bool
is_bad_port p = ltb_ℤ p (pos 1) || ltb_ℤ (pos 65535) p

-- What is wrong with the credentials for the method of authentication. `quote` is `%q`.
unfoldable pub check_vault_auth : (String → String) → Config → Option Err
check_vault_auth quote c =
    let method = lower_codes c.vault_auth_method in
    if same_codes method (codes "token")
    then (if is_blank c.vault_token
        then some (plain "vault token auth selected but token is empty")
        else none)
    else if same_codes method (codes "approle")
    then (if is_blank c.vault_app_role_id || is_blank c.vault_app_secret_id
        then some (plain "vault approle auth selected but role_id/secret_id missing")
        else none)
    else some (plain ("unsupported vault auth method " <> quote c.vault_auth_method))

-- The first error of two checks.
abbrev pub first_error : Option Err → Option Err → Option Err
first_error none f = f
first_error (some e) f = some e

abbrev pub fails_if : Bool → String → Option Err
fails_if b message = if b then some (plain message) else none

unfoldable pub check_vault : (String → String) → Config → Option Err
unfolding check_vault_auth
check_vault quote c = first_error (fails_if (not c.tls_enabled) "vault requires TLS enabled") (
    first_error (fails_if (is_blank c.vault_addr) "vault enabled but addr is empty") (
      first_error (check_vault_auth quote c) (
        first_error (fails_if (ltb_ℤ c.vault_cert_ttl (pos 1)) "vault cert TTL must be positive") (
          fails_if (ltb_ℤ c.vault_retry_interval (pos 1))
            "vault retry interval must be positive"))))

-- `Validate`
unfoldable pub validate : (String → String) → Config → Option Err
unfolding check_vault
validate quote c =
    first_error
      (fails_if (is_bad_port c.grpc_port) ("invalid GRPC port: " <> signed_decimal c.grpc_port))
      (first_error
        (fails_if (is_bad_port c.metrics_port)
          ("invalid metrics port: " <> signed_decimal c.metrics_port))
        (first_error
          (fails_if
            (c.tls_enabled
              && (is_blank c.tls_cert_path || is_blank c.tls_key_path || is_blank c.tls_ca_path))
            "TLS enabled but certificate paths not configured")
          (first_error (if c.vault_enabled then check_vault quote c else none) (
            first_error
              (fails_if (not c.docker_enabled && not c.compose_enabled && not c.vm_enabled)
                "at least one runtime must be enabled")
              (fails_if (is_blank c.scheduler_addr) "scheduler address cannot be empty")))))

-- What the program asks of its surroundings. `unmarshal` gives Viper's values, the labels of the
-- environment set over them, to a configuration.
pub record Surroundings : Type 0 where
  pub labels_env : String
  pub read_error : Option Err
  pub is_file_missing : Bool
  pub unmarshal : Option (Dict String) → Config → Result Config
  pub goos : String
  pub goarch : String
  pub unique_node_id : Result String
  pub hostname : Result String
  pub quote : String → String
  pub euid : ℕ
  pub home : Result String
  pub join_path : String → String → String

-- `labels[k]` is set if it is not.
abbrev pub set_default : String → String → Dict String → Dict String
set_default k v m = if is_some (Dict.get k m) then m else Dict.put k v m

-- `mergeWithDefaultLabels`; the order of the two defaults does not matter.
unfoldable pub merge_with_default_labels : Surroundings → Dict String → Dict String
merge_with_default_labels s m = set_default "arch" s.goarch (set_default "os" s.goos m)

abbrev pub set_label : String → String → Dict String → Dict String
set_label k v m = if is_blank v then m else Dict.put k v m

-- `parseNodeLabels`
unfoldable pub parse_node_labels : String → String → Dict String → Dict String
parse_node_labels region env raw = set_label "env" env (set_label "region" region raw)

-- `getHostname`
unfoldable pub get_hostname : Surroundings → String
get_hostname s = elim s.hostname [ ok h ↦ h | err e ↦ "unknown" ]

-- `generateNodeID`
unfoldable pub generate_node_id : Surroundings → String
unfolding get_hostname
generate_node_id s = elim s.unique_node_id [ ok id ↦ id | err e ↦ get_hostname s ]

-- `getConfigSearchPaths`
unfoldable pub get_config_search_paths : Surroundings → List String
get_config_search_paths s =
    "/etc/persys"
    ∷ ((if s.euid == 0
          then []
          else elim s.home [ ok h ↦ s.join_path h ".persys" ∷ [] | err e ↦ [] ])
        ++ "." ∷ [])

-- ===== src/Config/Load.antt =====
-- internal/config/config.go, `Load`: from the surroundings to a configuration.
pub mod Ready
use compute_agent.Base.{
  ◌<>◌, ◌≡◌, ◌⊎◌, String, Bool, true, false, not, ◌&&◌, Option, none, some, is_blank, is_some,
  arith, if◌then◌else◌,
}
use compute_agent.Base.Dict
use compute_agent.Base.Dict.{Dict}
use compute_agent.Errors.{Err, plain, error_text, Result, ok, err}
use compute_agent.Config.{
  Config, Surroundings, default_config, validate, merge_with_default_labels, parse_node_labels,
  generate_node_id,
}
use compute_agent.Config.Labels.{parse_labels_env}

abbrev pub env_labels : Surroundings → Option (Dict String)
env_labels s = if is_blank s.labels_env then none else some (parse_labels_env s.labels_env)

abbrev node_id_or_new : Surroundings → Config → String
node_id_or_new s c = if is_blank c.node_id then generate_node_id s else c.node_id

-- What `Load` makes of Viper's values before it validates them.
unfoldable pub complete : Surroundings → Config → Config
complete s c = record c {
  scheduler_tls_enabled = not c.scheduler_insecure;
  node_id = node_id_or_new s c;
  node_labels =
      parse_node_labels c.node_region c.node_env (merge_with_default_labels s c.node_labels);
}

abbrev pub validated : Config → Option Err → Result Config
validated c none = ok c
validated c (some e) = err e

abbrev pub completed : Surroundings → Result Config → Result Config
completed s (err e) = err (plain ("unmarshal config: " <> error_text e))
completed s (ok c) = validated (complete s c) (validate s.quote (complete s c))

abbrev pub unless_unread : Option Err → Bool → Result Config → Result Config
unless_unread none is_missing r = r
unless_unread (some e) is_missing r =
    if is_missing then r else err (plain ("config file error: " <> error_text e))

-- `Load`
unfoldable pub load : Surroundings → Result Config
load s =
    unless_unread s.read_error s.is_file_missing
      (completed s (s.unmarshal (env_labels s) default_config))

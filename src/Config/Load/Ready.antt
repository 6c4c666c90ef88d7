-- ===== src/Config/Load/Ready.antt =====
-- What the configurations that `Load` of internal/config/config.go returns are like.
use compute_agent.Base.{
  ◌≡◌, ◌⊎◌, inl, inr, refl, subst, String, Bool, true, false, not, Option, none, some, is_blank,
  is_some, arith, Bool-cases,
}
use compute_agent.Base.Dict
use compute_agent.Base.Dict.{Dict}
use compute_agent.Errors.{Err, Result, ok, err}
use compute_agent.Config.{
  Config, Surroundings, default_config, validate, merge_with_default_labels, parse_node_labels,
  set_default, set_label,
}
use compute_agent.Config.Validation.{IsValid, validate-IsValid}
use compute_agent.Config.Load.{env_labels, complete, validated, completed, unless_unread, load}

abbrev pub HasLabel : String → Dict String → Type 0
HasLabel k m = is_some (Dict.get k m) ≡ true

-- A name that is given is the value of a label.
abbrev pub IsLabelled : String → String → Dict String → Type 0
IsLabelled k v m = (is_blank v ≡ true) ⊎ (Dict.get k m ≡ some v)

-- Labels with the platform, and with the region and the environment of the node.
abbrev pub IsReady : Config → Type 0
IsReady c =
    (c.scheduler_tls_enabled ≡ not c.scheduler_insecure)
    × HasLabel "os" c.node_labels
    × HasLabel "arch" c.node_labels
    × IsLabelled "region" c.node_region c.node_labels
    × IsLabelled "env" c.node_env c.node_labels

set_default-HasLabel : (k v : String) (m : Dict String) → HasLabel k (set_default k v m)
set_default-HasLabel k v m = elim (Bool-cases (is_some (Dict.get k m))) [
  | inl e ↦ rw e e
  | inr e ↦ rw (e, Dict.get-put_self k v m) refl
]

put-HasLabel : (j k v : String) (m : Dict String) → HasLabel j m → HasLabel j (Dict.put k v m)
put-HasLabel j k v m h = ground (arith, Dict.get-put j k v m)

set_default-keeps :
    (j k v : String) (m : Dict String) → HasLabel j m → HasLabel j (set_default k v m)
set_default-keeps j k v m h = ground (arith, put-HasLabel j k v m)

set_label-keeps : (j k v : String) (m : Dict String) → HasLabel j m → HasLabel j (set_label k v m)
set_label-keeps j k v m h = ground (arith, put-HasLabel j k v m)

set_label-IsLabelled : (k v : String) (m : Dict String) → IsLabelled k v (set_label k v m)
set_label-IsLabelled k v m = ground (arith, Dict.get-put_self k v m)

region-IsLabelled :
    (v w : String) (m : Dict String)
    → IsLabelled "region" v m
    → IsLabelled "region" v (set_label "env" w m)
region-IsLabelled v w m h = ground (arith, Dict.get-put "region" "env" w m)

module _ (s : Surroundings) where
  complete-IsReady : (c : Config) → IsReady (complete s c)
  unfolding complete merge_with_default_labels parse_node_labels
  complete-IsReady c =
      let raw = c.node_labels in
      let with_os = set_default "os" s.goos raw in
      let merged = set_default "arch" s.goarch with_os in
      let placed = set_label "region" c.node_region merged in
      let keeps = λ (j : String) (h : HasLabel j merged).
        set_label-keeps j "env" c.node_env placed
          (set_label-keeps j "region" c.node_region merged h) in
      (
        refl,
        keeps "os"
            (set_default-keeps "os" "arch" s.goarch with_os (set_default-HasLabel "os" s.goos raw)),
        keeps "arch" (set_default-HasLabel "arch" s.goarch with_os),
        region-IsLabelled c.node_region c.node_env placed
            (set_label-IsLabelled "region" c.node_region merged),
        set_label-IsLabelled "env" c.node_env placed,
      )

  validated-IsReady :
      (c d : Config) (e : Option Err)
      → validate s.quote c ≡ e
      → IsReady c
      → validated c e ≡ ok d
      → IsValid d × IsReady d
  validated-IsReady c d none v r h =
      let same : c ≡ d = cc in
      subst (λ (x : Config). IsValid x × IsReady x) same ((validate-IsValid s.quote c).0 v, r)
  validated-IsReady c d (some e) v r h = cc

  completed-IsReady :
      (r : Result Config) (d : Config) → completed s r ≡ ok d → IsValid d × IsReady d
  completed-IsReady (err e) d h = cc
  completed-IsReady (ok c) d h =
      validated-IsReady (complete s c) d (validate s.quote (complete s c)) refl (complete-IsReady c)
        h

  unless_unread-ok :
      (e : Option Err) (is_missing : Bool) (r : Result Config) (d : Config)
      → unless_unread e is_missing r ≡ ok d
      → r ≡ ok d
  unless_unread-ok none is_missing r d h = h
  unless_unread-ok (some e) true r d h = h
  unless_unread-ok (some e) false r d h = cc

  -- Whatever the file, the environment and Viper give, a configuration that is returned is valid,
  -- uses TLS towards the scheduler exactly if it is not insecure, has labels for the platform, and
  -- its region and environment as labels if they are given.
  pub load-IsReady : (c : Config) → load s ≡ ok c → IsValid c × IsReady c
  unfolding load
  load-IsReady c h = completed-IsReady (s.unmarshal (env_labels s) default_config) c (
      unless_unread-ok s.read_error s.is_file_missing
        (completed s (s.unmarshal (env_labels s) default_config)) c h)

-- ===== src/Vm/Create.antt =====
-- internal/runtime/vm.go, lines 88 to 145: creating a machine.
pub mod Keeps
use compute_agent.Base.{
  String, ◌<>◌, Bool, true, false, Option, none, some, List, [], ◌∷◌, ◌++◌, is_blank, is_some,
  if◌then◌else◌,
}
use compute_agent.Base.Dict
use compute_agent.Base.Int.{pos}
use compute_agent.Errors.{error_text, Result, ok, err}
use compute_agent.Models.{Fields, Workload}
use compute_agent.Specs.{DiskConfig, VmSpec}
use compute_agent.Vm.{SeedInfo, Machine, V, pure, ◌>>=◌, ◌>>◌}
use compute_agent.Vm.Disks.{Tools, create_disks}
use compute_agent.Vm.Seed.{SeedTools, Seeded, no_seed, seeded, seed_error, create_seed}
use compute_agent.Vm.DomainXml.{Domain, domain_of}

-- The rest of what is asked of the system: `parseSpec`, the XML and `DomainDefineXML`.
pub record Makers : Type 0 where
  pub disks : Tools
  pub seeds : SeedTools
  pub parse_spec : Fields → Result VmSpec
  pub marshal : Domain → Result String
  pub define_error : String → Option String

abbrev cdrom : String → DiskConfig
cdrom path = record {
  path = path;
  device = "hdb";
  format = "raw";
  size_gb = pos 0;
  kind = "cdrom";
  boot = true;
}

-- `setSeedInfo` and `clearSeedInfo`
abbrev pub set_seed : String → SeedInfo → V (Unit {0})
set_seed id info m = (tt, record m { seeds = Dict.put id info m.seeds })

abbrev pub clear_seed : String → V (Unit {0})
clear_seed id m = (tt, record m { seeds = Dict.remove id m.seeds })

abbrev wrapped : String → Option String → Option String
wrapped message none = none
wrapped message (some e) = some (message <> ": " <> e)

-- The image is a disk of the machine, where it has a path.
abbrev pub with_cdrom : VmSpec → String → VmSpec
with_cdrom s path = if is_blank path then s else record s { disks = s.disks ++ cdrom path ∷ [] }

module _ (makers : Makers) where
  abbrev defined : Result String → Option String
  defined (err e) = some ("failed to generate domain XML: " <> error_text e)
  defined (ok xml) = wrapped "failed to define domain" (makers.define_error xml)

  define : String → VmSpec → Option String → V (Option String)
  define id s (some e) = pure (some e)
  define id s none = pure (defined (makers.marshal (domain_of makers.disks id s)))

  -- From the disks on
  create_from : String → VmSpec → V (Option String)
  unfolding define
  create_from id s = do e ← create_disks makers.disks s.disks; define id s e

  -- Where the specification has cloud-init.
  with_seed : String → VmSpec → Seeded → V (Option String)
  unfolding create_from
  with_seed id s (seed_error e) = pure (some ("failed to create cloud-init ISO: " <> e))
  with_seed id s no_seed = create_from id s
  with_seed id s (seeded info) = do set_seed id info; create_from id (with_cdrom s info.path)

  abbrev has_cloud_init : VmSpec → Bool
  has_cloud_init s = if is_blank s.cloud_init then is_some s.cloud_init_config else true

  create_parsed : String → Result VmSpec → V (Option String)
  unfolding with_seed create_from
  create_parsed id (err e) = pure (some ("failed to parse VM spec: " <> error_text e))
  create_parsed id (ok s) =
      if has_cloud_init s
      then (do seed ← create_seed makers.seeds id s; with_seed id s seed)
      else (do clear_seed id; create_from id s)

  -- `Create`; the result is the error
  unfoldable pub create : Workload → V (Option String)
  unfolding create_parsed
  create w = create_parsed w.id (makers.parse_spec w.spec)

-- ===== src/Vm.antt =====
-- internal/runtime/vm.go: the runtime of virtual machines, over libvirt. What libvirt and the file
-- system answer is a `Host`, whose answers may depend on all calls made so far, the newest first.
pub mod States
pub mod Power
pub mod Removal
pub mod Disks
pub mod Seed
pub mod DomainXml
pub mod Create
use compute_agent.Base.{
  String, ◌<>◌, Bool, true, false, ◌||◌, Option, none, some, List, [], ◌∷◌, str_eq, codes,
  lower_codes, has_infix, if◌then◌else◌,
}
use compute_agent.Base.Int.{ℤ}
use compute_agent.Base.Dict.{Dict}
use compute_agent.Errors.{Err, plain, error_text, Result, ok, err}
use compute_agent.Models.{Time}
use compute_agent.Vm.States.{DomainState}

pub data Call : Type 0 where
  looks_up gets_state gets_xml resumes starts shuts_down destroys undefines : String → Call

pub record Host : Type 0 where
  pub lookup_error : List Call → Option String
  pub action_error : List Call → Option String
  pub state_answer : List Call → Result DomainState
  -- the files of the disks in a domain's description, or why they are not known
  pub disk_files : List Call → Result (List String)
  pub cannot_remove : String → Bool
  -- `filepath.Base` and `filepath.Join`
  pub base_name : String → String
  pub join_path : String → String → String

pub record SeedInfo : Type 0 where
  pub path : String
  pub checksum : String
  pub size_bytes : ℤ
  pub prepared_at : Time

-- `files` tells which files exist, `seeds` is the map of the runtime.
pub record Machine : Type 0 where
  pub calls : List Call
  pub files : String → Bool
  pub seeds : Dict SeedInfo

abbrev pub V {ℓ} : Type ℓ → Type ℓ
V A = Machine → A × Machine

infixl 5 ◌>>=◌ ◌>>◌
abbrev pub pure {ℓ} : {A : Type ℓ} → A → V A
pure a m = (a, m)

abbrev pub ◌>>=◌ {ℓ κ} : {A : Type ℓ} {B : Type κ} → V A → (A → V B) → V B
◌>>=◌ f g m = let (a, m') = f m in g a m'

abbrev pub ◌>>◌ {ℓ κ} : {A : Type ℓ} {B : Type κ} → V A → V B → V B
f >> g = f >>= λ _. g

-- `isDomainNotFoundErr`
unfoldable pub is_domain_not_found : String → Bool
is_domain_not_found e =
    let msg = lower_codes e in
    has_infix msg (codes "domain not found") || has_infix msg (codes "no domain with matching name")

-- What `lookupDomain` finds out.
pub data Lookup : Type 0 where
  present absent : Lookup
  unknown : String → Lookup

module _ (host : Host) where
  -- A call that answers with an error or nothing.
  unfoldable pub act : Call → V (Option String)
  act c m = let cs = c ∷ m.calls in (host.action_error cs, record m { calls = cs })

  -- `DomainGetState`
  unfoldable pub get_state : String → V (Result DomainState)
  get_state id m =
      let cs = gets_state id ∷ m.calls in (host.state_answer cs, record m { calls = cs })

  -- `DomainGetXMLDesc` and `parseDiskSourceFilePaths`; no paths if either fails
  unfoldable pub get_disk_files : String → V (List String)
  get_disk_files id m =
      let cs = gets_xml id ∷ m.calls in
      (elim (host.disk_files cs) [ ok ps ↦ ps | err e ↦ [] ], record m { calls = cs })

  abbrev pub found : String → Option String → Lookup
  found id none = present
  found id (some e) =
      if is_domain_not_found e
      then absent
      else unknown ("failed to lookup domain " <> id <> ": " <> e)

  -- `lookupDomain`
  unfoldable pub lookup_domain : String → V Lookup
  lookup_domain id m =
      let cs = looks_up id ∷ m.calls in (found id (host.lookup_error cs), record m { calls = cs })

  -- `os.Remove`, whether it succeeds or finds no file
  unfoldable pub remove_file : String → V Bool
  remove_file p m =
      if host.cannot_remove p
      then (false, m)
      else (true, record m { files = λ q. if str_eq q p then false else m.files q })

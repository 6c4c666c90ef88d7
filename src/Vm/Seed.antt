-- ===== src/Vm/Seed.antt =====
-- internal/runtime/vm.go, lines 650 to 854: the cloud-init image of a machine.
pub mod Keeps
use compute_agent.Base.{
  ℕ, ◌+◌, String, ◌<>◌, Bool, true, false, ◌&&◌, ◌||◌, Option, none, some, List, [], ◌∷◌, ◌++◌, ltb,
  any, ◌==◌, codes, byte_length, is_blank, trim_space, decimal, if◌then◌else◌,
}
use compute_agent.Base.Int.{pos}
use compute_agent.Models.{Time}
use compute_agent.Specs.{CloudInitConfig, VmSpec}
use compute_agent.Vm.{SeedInfo, Machine, V, pure, ◌>>=◌}
use compute_agent.Vm.Disks.{add_file}

-- `maxCloudInitPayloadBytes`
abbrev pub max_payload : ℕ
max_payload = 262_144

-- `cloudInitInvalidError`
abbrev invalid : String → String
invalid message = "cloud-init-invalid: " <> message

-- `validateCloudInitField`
unfoldable pub validate_field : String → String → Option String
validate_field name value =
    if ltb max_payload (byte_length value)
    then some (
        invalid (
          name
          <> " size "
          <> decimal (byte_length value)
          <> " bytes exceeds limit "
          <> decimal max_payload
          <> " bytes"))
    else if any (λ c. c == 0) (codes value)
    then some (invalid (name <> " contains null byte"))
    else none

-- The four files of an image; without vendor data that file is not made.
pub record Payload : Type 0 where
  pub user_data : String
  pub meta_data : String
  pub network_config : String
  pub vendor_data : String

-- What the program asks the system for: whether a directory and a file can be made, the program
-- `mkisofs`, the digest, and the clock.
pub record SeedTools : Type 0 where
  pub temp_error : String → Option String
  pub write_error : String → Option String
  pub has_image_dir : Bool
  pub mkisofs_error : String → List String → Option String
  pub checksum : List String → Payload → String
  pub join_path : String → String → String
  pub clock : Time

abbrev pub no_config : CloudInitConfig
no_config = record { user_data = ""; meta_data = ""; network_config = ""; vendor_data = "" }

abbrev config_of : Option CloudInitConfig → CloudInitConfig
config_of none = no_config
config_of (some c) = c

abbrev has_data : Option CloudInitConfig → Bool
has_data none = false
has_data (some c) =
    if is_blank c.user_data then (if is_blank c.meta_data then false else true) else true

-- Whether an image is made.
abbrev pub wants_seed : VmSpec → Bool
wants_seed s = if is_blank s.cloud_init then has_data s.cloud_init_config else true

abbrev default_meta : String → String → String
default_meta id name =
    "{\n  \"instance-id\": \"" <> id <> "\",\n  \"hostname\": \"" <> name
    <> "\",\n  \"local-ipv4\": \"127.0.0.1\"\n}"

-- The payload before it is checked.
unfoldable pub payload_of : String → VmSpec → Payload
payload_of id s =
    let c = config_of s.cloud_init_config in
    record {
      meta_data = if is_blank (trim_space c.meta_data) then default_meta id s.name else c.meta_data;
      user_data =
          if is_blank c.user_data
          then (if is_blank s.cloud_init
              then "#!/bin/bash\necho 'Cloud-init configured'\n"
              else s.cloud_init)
          else c.user_data;
      network_config =
          if is_blank (trim_space c.network_config)
          then "version: 2\nethernets:\n  all:\n    dhcp4: true\n"
          else trim_space c.network_config;
      vendor_data = c.vendor_data;
    }

-- The sum that is compared with the limit.
abbrev pub payload_size : Payload → ℕ
payload_size p =
    byte_length p.user_data
    + byte_length p.meta_data
    + byte_length p.network_config
    + byte_length p.vendor_data

abbrev first : Option String → Option String → Option String
first none f = f
first (some e) f = some e

abbrev written : SeedTools → String → Option String
written tools name = elim (tools.write_error name) [
  | none ↦ none
  | some e ↦ some ("failed to write " <> name <> ": " <> e)
]

-- One file is checked and written.
abbrev file_error : SeedTools → String → String → Option String
file_error tools name value = first (validate_field name value) (written tools name)

abbrev vendor_error : SeedTools → String → Option String
vendor_error tools v = if is_blank v then none else file_error tools "vendor-data" v

abbrev size_error : ℕ → Option String
size_error n =
    if ltb max_payload n
    then some (
        invalid (
          "payload size "
          <> decimal n
          <> " bytes exceeds limit "
          <> decimal max_payload
          <> " bytes"))
    else none

-- All that is checked before the image is made, in the order of the source.
unfoldable pub payload_error : SeedTools → Payload → Option String
unfolding validate_field
payload_error tools p = first (file_error tools "meta-data" p.meta_data) (
    first (file_error tools "user-data" p.user_data) (
      first (file_error tools "network-config" p.network_config)
        (first (vendor_error tools (trim_space p.vendor_data)) (size_error (payload_size p)))))

abbrev file_keys : Payload → List String
file_keys p =
    "meta-data"
    ∷ "network-config"
    ∷ "user-data"
    ∷ (if is_blank (trim_space p.vendor_data) then [] else "vendor-data" ∷ [])

abbrev pub iso_path : SeedTools → String → String
iso_path tools id =
    tools.join_path (if tools.has_image_dir then "/var/lib/libvirt/images" else "/tmp")
      (id <> "-cloud-init.iso")

-- An image and what is known of it, none, or an error.
pub data Seeded : Type 0 where
  no_seed : Seeded
  seeded : SeedInfo → Seeded
  seed_error : String → Seeded

abbrev info : SeedTools → String → Payload → SeedInfo
info tools id p = record {
  path = iso_path tools id;
  checksum = tools.checksum (file_keys p) p;
  size_bytes = pos (payload_size p);
  prepared_at = tools.clock;
}

abbrev image_made : SeedTools → String → Payload → Option String → V Seeded
image_made tools id p (some e) m = (seed_error ("failed to create cloud-init ISO: " <> e), m)
image_made tools id p none m = (seeded (info tools id p), add_file (iso_path tools id) m)

abbrev checked : SeedTools → String → Payload → Option String → V Seeded
checked tools id p (some e) = pure (seed_error e)
checked tools id p none =
    image_made tools id p (tools.mkisofs_error (iso_path tools id) (file_keys p))

abbrev in_temp : SeedTools → String → Payload → Option String → V Seeded
in_temp tools id p (some e) = pure (seed_error ("failed to create temp directory: " <> e))
in_temp tools id p none = checked tools id p (payload_error tools p)

-- `createCloudInitISO`
unfoldable pub create_seed : SeedTools → String → VmSpec → V Seeded
unfolding payload_of payload_error
create_seed tools id s =
    if wants_seed s then in_temp tools id (payload_of id s) (tools.temp_error id) else pure no_seed

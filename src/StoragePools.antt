-- ===== src/StoragePools.antt =====
-- internal/storage/manager.go: storage pools and the disks allocated from them.
-- The manager owns its pools and allocations; `GetPool` and the lists answer with their values. The
-- caller's pool, which a refused `CreatePool` may have changed, is not returned.
pub mod Accounts
pub mod Laws
pub mod Soundness
pub mod RoundTrip
use compute_agent.Base.{
  ℕ, String, ◌<>◌, Bool, true, false, not, ◌&&◌, ◌||◌, Option, none, some, List, [], ◌∷◌, str_eq,
  trim_space, trim_slash, is_blank, filter, count, any, length, if◌then◌else◌,
}
use compute_agent.Base.Dict
use compute_agent.Base.Dict.{Dict}
use compute_agent.Base.Int.{ℤ, pos, ltb_ℤ, add_int64, sub_int64}
use compute_agent.Models.{Time, is_zero_time, zero_time}
use compute_agent.Errors.{Err, plain, Result, ok, err}

pub data PoolType : Type 0 where
  local nfs iscsi lvm gluster : PoolType
  other_pool : String → PoolType

unfoldable pub pool_type_text : PoolType → String
pool_type_text local = "local"
pool_type_text nfs = "nfs"
pool_type_text iscsi = "iscsi"
pool_type_text lvm = "lvm"
pool_type_text gluster = "gluster"
pool_type_text (other_pool s) = s

pub record Pool : Type 0 where
  pub name : String
  pub kind : PoolType
  pub uuid : String
  pub created_at : Time
  pub last_updated : Time
  pub total_size_gb : ℤ
  pub available_size_gb : ℤ
  pub allocated_size_gb : ℤ
  pub config : Dict String
  pub quota : ℤ
  pub warning_threshold : ℤ
  pub is_active : Bool
  pub is_healthy : Bool
  pub status : String
  pub labels : Dict String

pub record DiskAllocation : Type 0 where
  pub id : String
  pub pool_name : String
  pub name : String
  pub size_gb : ℤ
  pub path : String
  pub format : String
  pub created_at : Time
  pub attached_to : String
  pub read_only : Bool

-- `Manager`
pub record Storage : Type 0 where
  pub pools : Dict Pool
  pub allocations : Dict DiskAllocation

abbrev pub new_storage : Storage
new_storage = record { pools = []; allocations = [] }

-- What the manager uses of Go's libraries.
pub record Host : Type 0 where
  -- `fmt.Sprintf("%d", t.UnixNano())`
  pub unix_nano : Time → String
  -- `filepath.Join`
  pub join_path : String → String → String
  -- `int(float64(allocated) / float64(total) * 100)`, allocated first
  pub percent : ℤ → ℤ → ℤ
  -- `%d`
  pub show_int : ℤ → String

abbrev text_or_empty : Option String → String
text_or_empty none = ""
text_or_empty (some s) = s

-- `pool.Config[key]`
abbrev setting : String → Pool → String
setting key pool = text_or_empty (Dict.get key pool.config)

abbrev lacks : String → Pool → Bool
lacks key pool = is_blank (trim_space (setting key pool))

validate_by_type : PoolType → Pool → Option String
validate_by_type local p = if lacks "path" p then some "local pool requires config.path" else none
validate_by_type nfs p =
    if lacks "server" p || lacks "export" p
    then some "nfs pool requires config.server and config.export"
    else none
validate_by_type iscsi p =
    if lacks "target" p || lacks "portal" p
    then some "iscsi pool requires config.target and config.portal"
    else none
validate_by_type lvm p = if lacks "vg_name" p then some "lvm pool requires config.vg_name" else none
validate_by_type gluster p =
    if lacks "volume" p then some "gluster pool requires config.volume" else none
validate_by_type (other_pool s) p = some ("unsupported pool type: " <> s)

unfoldable pub validate_pool_config : Pool → Option String
unfolding validate_by_type
validate_pool_config p = validate_by_type p.kind p

-- The defaults that `CreatePool` fills in, before and after the configuration is validated.
unfoldable pub with_sizes : Time → Pool → Pool
with_sizes now p = record p {
  available_size_gb =
      if not (ltb_ℤ p.available_size_gb (pos 0)) && not (ltb_ℤ (pos 0) p.available_size_gb)
      then p.total_size_gb
      else p.available_size_gb;
  created_at = if is_zero_time p.created_at then now else p.created_at;
}

clamped_threshold : ℤ → ℤ
clamped_threshold t =
    if not (ltb_ℤ (pos 0) t) then pos 80 else if ltb_ℤ (pos 100) t then pos 100 else t

unfoldable pub with_defaults : Host → Time → Pool → Pool
unfolding clamped_threshold
with_defaults host now p = record p {
  warning_threshold = clamped_threshold p.warning_threshold;
  uuid = if is_blank p.uuid then "pool-" <> host.unix_nano now else p.uuid;
  is_active = true;
  is_healthy = true;
  status = if is_blank (trim_space p.status) then "healthy" else p.status;
}

abbrev pub is_known {ℓ} : {A : Type ℓ} → Option A → Bool
is_known none = false
is_known (some a) = true

-- After the sizes are set.
unfoldable pub create_valid : Host → Time → Pool → Storage → Option String → Option String × Storage
unfolding with_defaults
create_valid host now p m (some e) = (some e, m)
create_valid host now p m none =
    (none, record m { pools = Dict.put p.name (with_defaults host now p) m.pools })

unfoldable pub create_pool : Host → Time → Time → Pool → Storage → Option String × Storage
unfolding with_sizes create_valid validate_pool_config
create_pool host now1 now2 p m =
    if is_blank p.name
    then (some "pool name cannot be empty", m)
    else if is_known (Dict.get p.name m.pools)
    then (some ("pool " <> p.name <> " already exists"), m)
    else if not (ltb_ℤ (pos 0) p.total_size_gb)
    then (some "pool size must be positive", m)
    else create_valid host now2 (with_sizes now1 p) m (validate_pool_config (with_sizes now1 p))

unfoldable pub get_pool : String → Storage → Result Pool
get_pool name m = elim (Dict.get name m.pools) [
  | none ↦ err (plain ("pool " <> name <> " not found"))
  | some p ↦ ok p
]

abbrev pub list_pools : Storage → List Pool
list_pools m = Dict.values m.pools

unfoldable pub list_pools_by_type : PoolType → Storage → List Pool
unfolding pool_type_text
list_pools_by_type kind m =
    filter (λ p. str_eq (pool_type_text p.kind) (pool_type_text kind)) (Dict.values m.pools)

abbrev pub is_in : String → DiskAllocation → Bool
is_in pool a = str_eq a.pool_name pool

unfoldable pub delete_pool : String → Storage → Option String × Storage
delete_pool name m =
    if any (is_in name) (Dict.values m.allocations)
    then (some ("pool " <> name <> " has active allocations"), m)
    else if not (is_known (Dict.get name m.pools))
    then (some ("pool " <> name <> " not found"), m)
    else (none, record m { pools = Dict.remove name m.pools })

allocation_path : Host → PoolType → Pool → String → String
allocation_path host local p id =
    let base = trim_space (setting "path" p) in
    host.join_path (if is_blank base then "/var/lib/persys/storage" else base) id
allocation_path host nfs p id =
    "nfs://" <> setting "server" p <> "/" <> trim_slash (setting "export" p) <> "/" <> id
allocation_path host iscsi p id =
    "iscsi://" <> setting "portal" p <> "/" <> setting "target" p <> "/" <> id
allocation_path host lvm p id = "/dev/" <> setting "vg_name" p <> "/" <> id
allocation_path host gluster p id = "gluster://" <> setting "volume" p <> "/" <> id
allocation_path host (other_pool s) p id = id

unfoldable pub build_allocation_path : Host → Pool → String → String
unfolding allocation_path
build_allocation_path host p id = allocation_path host p.kind p id

abbrev pub disk_id : Host → Time → String
disk_id host now = "disk-" <> host.unix_nano now

-- The three readings of the clock: the identifier, the allocation, the update of the pool.
unfoldable pub new_allocation : Host → Time → Time → Pool → String → ℤ → String → DiskAllocation
unfolding build_allocation_path
new_allocation host now1 now2 p pool_name size format = record {
  id = disk_id host now1;
  pool_name = pool_name;
  name = disk_id host now1;
  size_gb = size;
  path = build_allocation_path host p (disk_id host now1);
  format = if is_blank (trim_space format) then "qcow2" else format;
  created_at = now2;
  attached_to = "";
  read_only = false;
}

unfoldable pub take_space : Host → Time → ℤ → Pool → Pool
take_space host now size p =
    let allocated = add_int64 p.allocated_size_gb size in
    record p {
      available_size_gb = sub_int64 p.available_size_gb size;
      allocated_size_gb = allocated;
      last_updated = now;
      status =
          if not (ltb_ℤ (host.percent allocated p.total_size_gb) p.warning_threshold)
          then "warning: utilization above threshold"
          else "healthy";
    }

-- The pool is known.
unfoldable pub allocate_from :
    Host
    → Time
    → Time
    → Time
    → String
    → ℤ
    → String
    → Pool
    → Storage
    → Result DiskAllocation × Storage
unfolding new_allocation take_space
allocate_from host now1 now2 now3 pool_name size format p m =
    let a = new_allocation host now1 now2 p pool_name size format in
    if not (ltb_ℤ (pos 0) size)
    then (err (plain "disk size must be positive"), m)
    else if ltb_ℤ p.available_size_gb size
    then (
      err (
          plain (
            "insufficient space in pool "
            <> pool_name
            <> ": needed "
            <> host.show_int size
            <> "GB, available "
            <> host.show_int p.available_size_gb
            <> "GB")),
      m,
    )
    else if ltb_ℤ (pos 0) p.quota && ltb_ℤ p.quota (add_int64 p.allocated_size_gb size)
    then (err (plain ("allocation exceeds quota for pool " <> pool_name)), m)
    else (
      ok a,
      record {
        pools = Dict.put pool_name (take_space host now3 size p) m.pools;
        allocations = Dict.put a.id a m.allocations;
      },
    )

unfoldable pub allocate_disk :
    Host → Time → Time → Time → String → ℤ → String → Storage → Result DiskAllocation × Storage
unfolding allocate_from
allocate_disk host now1 now2 now3 pool_name size format m = elim (Dict.get pool_name m.pools) [
  | none ↦ (err (plain ("pool " <> pool_name <> " not found")), m)
  | some p ↦ allocate_from host now1 now2 now3 pool_name size format p m
]

unfoldable pub give_space : Time → ℤ → Pool → Pool
give_space now size p = record p {
  available_size_gb = add_int64 p.available_size_gb size;
  allocated_size_gb = sub_int64 p.allocated_size_gb size;
  last_updated = now;
}

unfoldable pub free_allocation : Time → String → DiskAllocation → Storage → Option String × Storage
unfolding give_space
free_allocation now id a m =
    if not (is_blank a.attached_to)
    then (some ("disk " <> id <> " is currently attached to " <> a.attached_to), m)
    else elim (Dict.get a.pool_name m.pools) [
      | none ↦ (some ("pool " <> a.pool_name <> " not found"), m)
      | some p ↦ (
        none,
        record {
          pools = Dict.put a.pool_name (give_space now a.size_gb p) m.pools;
          allocations = Dict.remove id m.allocations;
        },
      )
    ]

unfoldable pub free_disk : Time → String → Storage → Option String × Storage
unfolding free_allocation
free_disk now id m = elim (Dict.get id m.allocations) [
  | none ↦ (some ("disk allocation " <> id <> " not found"), m)
  | some a ↦ free_allocation now id a m
]

unfoldable pub get_disk_allocation : String → Storage → Result DiskAllocation
get_disk_allocation id m = elim (Dict.get id m.allocations) [
  | none ↦ err (plain ("disk allocation " <> id <> " not found"))
  | some a ↦ ok a
]

unfoldable pub list_allocations : String → Storage → List DiskAllocation
list_allocations pool m = filter (is_in pool) (Dict.values m.allocations)

unfoldable pub attach_disk : String → String → Storage → Option String × Storage
attach_disk id workload_id m = elim (Dict.get id m.allocations) [
  | none ↦ (some ("disk allocation " <> id <> " not found"), m)
  | some a ↦
      if not (is_blank a.attached_to)
      then (some ("disk " <> id <> " is already attached to " <> a.attached_to), m)
      else (
        none,
        record m {
          allocations = Dict.put id (record a { attached_to = workload_id }) m.allocations;
        },
      )
]

unfoldable pub detach_disk : String → Storage → Option String × Storage
detach_disk id m = elim (Dict.get id m.allocations) [
  | none ↦ (some ("disk allocation " <> id <> " not found"), m)
  | some a ↦
      (none, record m { allocations = Dict.put id (record a { attached_to = "" }) m.allocations })
]

-- The utilisation, a float in the source, is left to its two amounts.
pub record PoolStats : Type 0 where
  pub name : String
  pub total_size_gb : ℤ
  pub allocated_size_gb : ℤ
  pub available_size_gb : ℤ
  pub allocation_count : ℕ

unfoldable pub get_pool_stats : String → Storage → Result PoolStats
get_pool_stats pool m = elim (Dict.get pool m.pools) [
  | none ↦ err (plain ("pool " <> pool <> " not found"))
  | some p ↦ ok (record {
    name = p.name;
    total_size_gb = p.total_size_gb;
    allocated_size_gb = p.allocated_size_gb;
    available_size_gb = p.available_size_gb;
    allocation_count = count (is_in pool) (Dict.values m.allocations);
  })
]

unfoldable pub resize : Time → ℤ → Pool → Pool
resize now size p = record p {
  total_size_gb = size;
  available_size_gb = sub_int64 size p.allocated_size_gb;
  last_updated = now;
}

unfoldable pub resize_pool : Host → Time → String → ℤ → Storage → Option String × Storage
unfolding resize
resize_pool host now pool size m = elim (Dict.get pool m.pools) [
  | none ↦ (some ("pool " <> pool <> " not found"), m)
  | some p ↦
      if not (ltb_ℤ p.allocated_size_gb size)
      then (
        some (
            "new size ("
            <> host.show_int size
            <> "GB) cannot be less than allocated space ("
            <> host.show_int p.allocated_size_gb
            <> "GB)"),
        m,
      )
      else (none, record m { pools = Dict.put pool (resize now size p) m.pools })
]

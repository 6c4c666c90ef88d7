-- ===== src/Resources.antt =====
-- internal/resources/monitor.go: whether the node has room for a workload. What the node answers is
-- a `Readings`; a percentage is a float, which is compared and shown by parameters.
pub mod Limits
use compute_agent.Base.{
  ℕ, suc, ◌/◌, String, ◌<>◌, Bool, true, false, Option, none, some, List, [], ◌∷◌, ◌++◌, is_empty,
  decimal, if◌then◌else◌,
}
use compute_agent.Base.Dict
use compute_agent.Base.Dict.{Dict}
use compute_agent.Base.Int.{ℤ, pos, ltb_ℤ, signed_decimal}
use compute_agent.Models.{Float64, Time}
use compute_agent.Workload.World.{Availability, check_failed, available, short_of}

pub record Utilization : Type 0 where
  pub memory_percent : Float64
  pub cpu_percent : Float64
  pub disk_percent : Dict Float64
  pub timestamp : Time

pub record Thresholds : Type 0 where
  pub memory_threshold : Float64
  pub cpu_threshold : Float64
  pub disk_threshold : Float64

pub record Monitor : Type 0 where
  pub thresholds : Thresholds
  pub last_check : Utilization

-- Free space and memory are in bytes.
pub record Disk : Type 0 where
  pub used_percent : Float64
  pub free : ℕ

pub data Reading {ℓ} (A : Type ℓ) : Type ℓ where
  read : A → Reading A
  failed : String → Reading A

pub record Readings : Type 0 where
  pub now : Time
  pub memory_percent : Reading Float64
  pub memory_available : Reading ℕ
  -- of all processors together, and of each
  pub cpu_total : Reading (List Float64)
  pub cpu_each : Reading (List Float64)
  pub disk_usage : String → Reading Disk

pub record Floats : Type 0 where
  pub zero_percent : Float64
  pub percent : ℕ → Float64
  -- the second is smaller
  pub is_above : Float64 → Float64 → Bool
  -- `%.1f`
  pub show : Float64 → String

module _ (fl : Floats) where
  -- `DefaultThresholds`
  abbrev pub default_thresholds : Thresholds
  default_thresholds = record {
    memory_threshold = fl.percent 80;
    cpu_threshold = fl.percent 80;
    disk_threshold = fl.percent 90;
  }

  abbrev thresholds_or : Option Thresholds → Thresholds
  thresholds_or none = default_thresholds
  thresholds_or (some t) = t

  -- `NewMonitor`
  unfoldable pub new_monitor : Option Thresholds → Monitor
  new_monitor t = record {
    thresholds = thresholds_or t;
    last_check = record {
      memory_percent = fl.zero_percent;
      cpu_percent = fl.zero_percent;
      disk_percent = [];
      timestamp = 0;
    };
  }

  abbrev first_or_zero : List Float64 → Float64
  first_or_zero [] = fl.zero_percent
  first_or_zero (p ∷ ps) = p

  abbrev pub add_disk : String → Reading Disk → Dict Float64 → Dict Float64
  add_disk mount (failed e) m = m
  add_disk mount (read d) m = Dict.put mount d.used_percent m

  -- The loop over the mount points, the map so far last
  unfoldable pub disk_percents : Readings → List String → Dict Float64 → Dict Float64
  disk_percents r [] m = m
  disk_percents r (p ∷ ps) m = disk_percents r ps (add_disk p (r.disk_usage p) m)

  abbrev mounts_or : List String → List String
  mounts_or [] = "/" ∷ "/var" ∷ "/home" ∷ []
  mounts_or (p ∷ ps) = p ∷ ps

  abbrev with_cpu : Readings → List String → Float64 → Reading (List Float64) → Reading Utilization
  with_cpu r mounts memory (failed e) = failed ("failed to get CPU stats: " <> e)
  with_cpu r mounts memory (read ps) = read (record {
    memory_percent = memory;
    cpu_percent = first_or_zero ps;
    disk_percent = disk_percents r (mounts_or mounts) [];
    timestamp = r.now;
  })

  abbrev utilization_of : Readings → List String → Reading Float64 → Reading Utilization
  utilization_of r mounts (failed e) = failed ("failed to get memory stats: " <> e)
  utilization_of r mounts (read memory) = with_cpu r mounts memory r.cpu_total

  abbrev noted : Monitor → Reading Utilization → Reading Utilization × Monitor
  noted m (failed e) = (failed e, m)
  noted m (read u) = (read u, record m { last_check = u })

  -- `GetUtilization`
  unfoldable pub get_utilization : Readings → List String → Monitor → Reading Utilization × Monitor
  unfolding disk_percents
  get_utilization r mounts m = noted m (utilization_of r mounts r.memory_percent)

  abbrev pub too_high : String → Float64 → Float64 → List String
  too_high what percent threshold =
      if fl.is_above percent threshold
      then (what <> ": " <> fl.show percent <> "% (threshold: " <> fl.show threshold <> "%)") ∷ []
      else []

  unfoldable pub disk_issues : Float64 → Dict Float64 → List String
  disk_issues t [] = []
  disk_issues t ((mount, percent) ∷ m) =
      too_high ("disk utilization too high on " <> mount) percent t ++ disk_issues t m

  unfoldable pub issues_of : Thresholds → Utilization → List String
  unfolding disk_issues
  issues_of t u =
      too_high "memory utilization too high" u.memory_percent t.memory_threshold
      ++ (too_high "CPU utilization too high" u.cpu_percent t.cpu_threshold
          ++ disk_issues t.disk_threshold u.disk_percent)

  abbrev pub verdict : List String → Availability
  verdict [] = available
  verdict (i ∷ is) = short_of (i ∷ is)

  abbrev pub availability : Thresholds → Reading Utilization → Availability
  availability t (failed e) = check_failed ("failed to check resource availability: " <> e)
  availability t (read u) = verdict (issues_of t u)

  -- `IsResourceAvailable`
  unfoldable pub is_resource_available : Readings → Monitor → Availability × Monitor
  unfolding get_utilization issues_of
  is_resource_available r m =
      let (u, m') = get_utilization r ("/" ∷ []) m in (availability m.thresholds u, m')

  -- `CheckMemoryAvailable`; the result is the reason against it. A number of megabytes is small enough
  -- for an int64.
  unfoldable pub check_memory_available : Readings → ℤ → Option String
  check_memory_available r requested = elim r.memory_available [
    | failed e ↦ some ("failed to check memory: " <> e)
    | read free ↦
        let mb = pos (free / 1024 / 1024) in
        if ltb_ℤ mb requested
        then some (
            "insufficient memory: requested "
            <> signed_decimal requested
            <> "MB, available "
            <> signed_decimal mb
            <> "MB")
        else none
  ]

  -- How many are below the threshold.
  unfoldable pub below : Float64 → List Float64 → ℕ
  below t [] = 0
  below t (p ∷ ps) = let rest = below t ps in if fl.is_above t p then suc rest else rest

  -- `CheckCPUAvailable`
  unfoldable pub check_cpu_available : Readings → Monitor → Reading ℕ
  unfolding below
  check_cpu_available r m = elim r.cpu_each [
    | failed e ↦ failed ("failed to check CPU utilization: " <> e)
    | read ps ↦ read (below m.thresholds.cpu_threshold ps)
  ]

  -- `CheckDiskAvailable`; the result is the reason against it
  unfoldable pub check_disk_available : Readings → String → ℤ → Option String
  check_disk_available r mount required = elim (r.disk_usage mount) [
    | failed e ↦ some ("failed to check disk: " <> e)
    | read d ↦
        let gb = pos (d.free / 1024 / 1024 / 1024) in
        if ltb_ℤ gb required
        then some (
            "insufficient disk space on "
            <> mount
            <> ": requested "
            <> signed_decimal required
            <> "GB, available "
            <> signed_decimal gb
            <> "GB")
        else none
  ]

  -- `GetLastUtilization`
  abbrev pub get_last_utilization : Monitor → Utilization
  get_last_utilization m = m.last_check

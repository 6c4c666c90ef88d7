-- ===== src/Resources/Limits.antt =====
-- When the monitor of internal/resources/monitor.go finds room.
use compute_agent.Base.{◌≡◌, ◌↔◌, refl, String, false, List, [], ◌∷◌, arith}
use compute_agent.Base.Dict.{Dict}
use compute_agent.Models.{Float64}
use compute_agent.Workload.World.{available}
use compute_agent.Resources.{
  Floats, Thresholds, Utilization, Monitor, Reading, read, failed, Readings, disk_issues, issues_of,
  verdict, availability, get_utilization, is_resource_available,
}

-- No disk is above the threshold.
abbrev pub DisksFit : Floats → Float64 → Dict Float64 → Type 0
DisksFit fl t [] = Unit
DisksFit fl t ((mount, percent) ∷ m) = (fl.is_above percent t ≡ false) × DisksFit fl t m

-- The utilization was read, and nothing of it is above its threshold.
abbrev pub Fits : Floats → Thresholds → Reading Utilization → Type 0
Fits fl t (failed e) = ⊥
Fits fl t (read u) =
    (fl.is_above u.memory_percent t.memory_threshold ≡ false)
    × (fl.is_above u.cpu_percent t.cpu_threshold ≡ false)
    × DisksFit fl t.disk_threshold u.disk_percent

module _ (fl : Floats) where
  disk_issues_iff : (t : Float64) (m : Dict Float64) → (disk_issues fl t m ≡ []) ↔ DisksFit fl t m
  unfolding disk_issues
  disk_issues_iff t [] = (λ e. tt, λ d. refl)
  disk_issues_iff t ((mount, percent) ∷ m) = ground (arith, disk_issues_iff t m)

  issues_of_iff : (t : Thresholds) (u : Utilization) → (issues_of fl t u ≡ []) ↔ Fits fl t (read u)
  unfolding issues_of
  issues_of_iff t u = ground (arith, disk_issues_iff t.disk_threshold u.disk_percent)

  verdict_iff : (is : List String) → (verdict fl is ≡ available) ↔ (is ≡ [])
  verdict_iff [] = (λ e. refl, λ e. refl)
  verdict_iff (i ∷ is) = ground arith

  availability_iff :
      (t : Thresholds) (u : Reading Utilization) → (availability fl t u ≡ available) ↔ Fits fl t u
  availability_iff t (failed e) = ground arith
  availability_iff t (read u) = ground (arith, issues_of_iff t u, verdict_iff (issues_of fl t u))

  -- The node has room for a workload just if its utilization could be read and neither memory nor
  -- processors nor the root disk, where that could be read, are above their thresholds.
  pub is_resource_available_iff :
      (r : Readings) (m : Monitor)
      → ((is_resource_available fl r m).0 ≡ available)
        ↔ Fits fl m.thresholds (get_utilization fl r ("/" ∷ []) m).0
  unfolding is_resource_available
  is_resource_available_iff r m =
      availability_iff m.thresholds (get_utilization fl r ("/" ∷ []) m).0

-- ===== src/Control/Capabilities/Drivers.antt =====
-- The storage drivers that internal/control/client.go advertises.
use compute_agent.Base.{
  ℕ, ◌≡◌, Bool, true, false, ◌&&◌, ◌||◌, String, List, count, length, ◌+◌, str_eq, arith,
  trim_space, lower, if◌then◌else◌,
}
use compute_agent.Config.{Config}
use compute_agent.Control.Capabilities.{
  append_unique_driver, is_given, has_label, select_drivers, supported_storage_drivers,
}

abbrev pub once : Bool → ℕ
once b = if b then 1 else 0

-- How often a driver is in a list.
abbrev pub times : String → List String → ℕ
times d = count (λ s. str_eq s d)

select_drivers-times :
    (a b c d e : Bool)
    → (times "local" (select_drivers a b c d e) ≡ 1)
      × (times "nfs" (select_drivers a b c d e) ≡ once (a || c))
      × (times "ceph-rbd" (select_drivers a b c d e) ≡ once (b || (d || e)))
      × (length (select_drivers a b c d e) ≡ 1 + once (a || c) + once (b || (d || e)))
unfolding select_drivers append_unique_driver lower trim_space
select_drivers-times true true c d e = ground arith
select_drivers-times true false c d e = ground arith
select_drivers-times false true c d e = ground arith
select_drivers-times false false c d e = ground arith

-- Where NFS is configured, by its server and export or by the label.
abbrev pub has_nfs : Config → Bool
has_nfs c =
    (is_given c.storage_nfs_server && is_given c.storage_nfs_export) || has_label "storage.nfs" c

-- Where Ceph is configured, by its pool or by either label.
abbrev pub has_ceph : Config → Bool
has_ceph c =
    is_given c.storage_ceph_pool
    || (has_label "storage.ceph_rbd" c || has_label "storage.ceph-rbd" c)

-- The advertised drivers are "local", "nfs" exactly where NFS is configured, "ceph-rbd" exactly
-- where Ceph is, each once however often it is configured, and no others.
pub supported_storage_drivers-times :
    (c : Config)
    → let ds = supported_storage_drivers c in
      (times "local" ds ≡ 1)
      × (times "nfs" ds ≡ once (has_nfs c))
      × (times "ceph-rbd" ds ≡ once (has_ceph c))
      × (length ds ≡ 1 + once (has_nfs c) + once (has_ceph c))
unfolding supported_storage_drivers
supported_storage_drivers-times c =
    select_drivers-times (is_given c.storage_nfs_server && is_given c.storage_nfs_export)
      (is_given c.storage_ceph_pool) (has_label "storage.nfs" c) (has_label "storage.ceph_rbd" c)
      (has_label "storage.ceph-rbd" c)

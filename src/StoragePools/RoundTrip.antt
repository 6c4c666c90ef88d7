-- ===== src/StoragePools/RoundTrip.antt =====
-- A disk that is allocated and freed again (internal/storage/manager.go).
use compute_agent.Base.{
  ℕ, ◌-◌, ◌≡◌, ◌∙◌, ap, refl, sym, String, Bool, true, false, ◌&&◌, none, some, [], ◌∷◌, eq_refl,
  arith, is_blank,
}
use compute_agent.Base.Dict
use compute_agent.Base.Dict.{Dict, get-put, get-put_self}
use compute_agent.Base.Int.{ℤ, pos, ltb_ℤ, add_int64, negsuc}
use compute_agent.Models.{Time}
use compute_agent.Errors.{Result, ok, err}
use compute_agent.StoragePools.{
  Pool, DiskAllocation, Storage, Host, disk_id, allocate_disk, allocate_from, free_disk,
  free_allocation, new_allocation, take_space, give_space,
}
use compute_agent.StoragePools.Accounts.{
  IsBalanced, used, take_space-IsBalanced, give_space-IsBalanced,
}
use compute_agent.StoragePools.Laws.{IsSound, account-some}

abbrev pub is_ok {ℓ} : {A : Type ℓ} → Result A → Bool
is_ok (ok a) = true
is_ok (err e) = false

remove-put_new {ℓ} :
    {V : Type ℓ} (k : String) (v : V) (m : Dict V)
    → Dict.get k m ≡ none
    → Dict.remove k (Dict.put k v m) ≡ m
unfolding Dict.remove Dict.put Dict.get
remove-put_new k v [] h = ground (arith, eq_refl k)
remove-put_new k v ((j, w) ∷ m) h = ground (arith, remove-put_new k v m)

-- The pool `q` has the amounts of the pool `p`.
pub record SameAmounts (p q : Pool) : Type 0 where
  pub total : q.total_size_gb ≡ p.total_size_gb
  pub available : q.available_size_gb ≡ p.available_size_gb
  pub allocated : q.allocated_size_gb ≡ p.allocated_size_gb

-- Balanced accounts of the same size and taken share are the same amounts.
IsBalanced-SameAmounts :
    (p q : Pool) (taken : ℕ)
    → q.total_size_gb ≡ p.total_size_gb
    → IsBalanced p taken
    → IsBalanced q taken
    → SameAmounts p q
IsBalanced-SameAmounts p q taken e h k =
    let same : k.total ≡ h.total = ground (arith, e, h.total_lem, k.total_lem) in
    record {
      total = e;
      available = k.available_lem ∙ ap (λ t. pos (t - taken)) same ∙ sym h.available_lem;
      allocated = k.allocated_lem ∙ sym h.allocated_lem;
    }

give_space-take_space :
    (host : Host) (now now' : Time) (size : ℤ) (taken : ℕ) (p : Pool)
    → IsBalanced p taken
    → ltb_ℤ (pos 0) size ≡ true
    → ltb_ℤ p.available_size_gb size ≡ false
    → (ltb_ℤ (pos 0) p.quota && ltb_ℤ p.quota (add_int64 p.allocated_size_gb size)) ≡ false
    → SameAmounts p (give_space now' size (take_space host now size p))
unfolding give_space take_space
give_space-take_space host now now' (pos s) taken p h more room quota =
    IsBalanced-SameAmounts p (give_space now' (pos s) (take_space host now (pos s) p)) taken refl h
      (give_space-IsBalanced now' s taken (take_space host now (pos s) p)
        (take_space-IsBalanced host now s taken p h room quota))
give_space-take_space host now now' (negsuc s) taken p h more room quota = ground (arith, more)

-- The store with an allocation added to it and its pool changed.
abbrev with_disk : String → Pool → String → DiskAllocation → Storage → Storage
with_disk pool p id a m = record {
  pools = Dict.put pool p m.pools;
  allocations = Dict.put id a m.allocations;
}

allocate_disk-with_disk :
    (host : Host) (now1 now2 now3 : Time) (pool : String) (size : ℤ) (format : String) (p : Pool)
    (m : Storage)
    → Dict.get pool m.pools ≡ some p
    → ltb_ℤ (pos 0) size ≡ true
    → ltb_ℤ p.available_size_gb size ≡ false
    → (ltb_ℤ (pos 0) p.quota && ltb_ℤ p.quota (add_int64 p.allocated_size_gb size)) ≡ false
    → let a = new_allocation host now1 now2 p pool size format in
      allocate_disk host now1 now2 now3 pool size format m
      ≡ (ok a, with_disk pool (take_space host now3 size p) (disk_id host now1) a m)
unfolding allocate_disk allocate_from new_allocation
allocate_disk-with_disk host now1 now2 now3 pool size format p m e more room quota =
    rw (allocate_disk, e, more, room, quota) refl

free_disk-with_disk :
    (now : Time) (id : String) (p : Pool) (a : DiskAllocation) (m : Storage)
    → is_blank a.attached_to ≡ true
    → free_disk now id (with_disk a.pool_name p id a m) ≡ (
      none,
      record {
        pools = Dict.put a.pool_name (give_space now a.size_gb p) (Dict.put a.pool_name p m.pools);
        allocations = Dict.remove id (Dict.put id a m.allocations);
      },
    )
unfolding free_disk free_allocation
free_disk-with_disk now id p a m loose =
    rw
      (
        free_disk,
        get-put_self id a m.allocations,
        free_allocation,
        loose,
        get-put_self a.pool_name p m.pools,
      )
      refl

-- In a sound store, a disk of positive size that the pool has room and quota for, under an
-- identifier that is not in use, is allocated; freed again, the allocations are those from before,
-- and the pool has its amounts back.
pub free_disk-allocate_disk :
    (host : Host) (now1 now2 now3 now4 : Time) (pool : String) (size : ℤ) (format : String)
    (p : Pool) (m : Storage)
    → IsSound m
    → Dict.get (disk_id host now1) m.allocations ≡ none
    → Dict.get pool m.pools ≡ some p
    → ltb_ℤ (pos 0) size ≡ true
    → ltb_ℤ p.available_size_gb size ≡ false
    → (ltb_ℤ (pos 0) p.quota && ltb_ℤ p.quota (add_int64 p.allocated_size_gb size)) ≡ false
    → let allocated = allocate_disk host now1 now2 now3 pool size format m in
      let freed = free_disk now4 (disk_id host now1) allocated.1 in
      (is_ok allocated.0 ≡ true)
      × (freed.0 ≡ none)
      × (freed.1.allocations ≡ m.allocations)
      × ((q : Pool) × (Dict.get pool freed.1.pools ≡ some q) × SameAmounts p q)
unfolding new_allocation
free_disk-allocate_disk host now1 now2 now3 now4 pool size format p m h fresh e more room quota =
    let id = disk_id host now1 in
    let a = new_allocation host now1 now2 p pool size format in
    let p1 = take_space host now3 size p in
    let p2 = give_space now4 size p1 in
    rw
      (
        allocate_disk-with_disk host now1 now2 now3 pool size format p m e more room quota,
        free_disk-with_disk now4 id p1 a m refl,
      )
      (
        refl,
        refl,
        remove-put_new id a m.allocations fresh,
        (
          p2,
          get-put_self pool p2 (Dict.put pool p1 m.pools),
          give_space-take_space host now3 now4 size (used pool m.allocations) p
              (account-some pool p m h e) more room quota,
        ),
      )

-- ===== src/StoragePools/Accounts.antt =====
-- The accounts of storage pools (internal/storage/manager.go): how much of a pool its disks take,
-- and when the amounts that the pool records agree with it.
use compute_agent.Base.{
  ℕ, ◌+◌, ◌-◌, ◌≤◌, ◌≡◌, ◌∙◌, refl, String, true, false, ◌&&◌, none, some, [], ◌∷◌, eq_iff, any,
  arith, if◌then◌else◌, ◌⊎◌,
}
use compute_agent.Base.Dict
use compute_agent.Base.Dict.{Dict, Distinct, get-put, get-remove, put-Distinct, remove-Distinct}
use compute_agent.Base.Int.{
  pos, pos_part, ltb_ℤ, max_int64, add_int64, add_int64_fits, sub_int64_fits,
}
use compute_agent.Models.{Time}
use compute_agent.StoragePools.{
  Pool, DiskAllocation, Host, is_in, take_space, give_space, resize, with_sizes, with_defaults,
}

-- The gigabytes that an allocation takes from a pool.
abbrev pub share : String → DiskAllocation → ℕ
share pool a = if is_in pool a then pos_part a.size_gb else 0

-- The gigabytes of all disks of a pool.
unfoldable pub used : String → Dict DiskAllocation → ℕ
used pool [] = 0
used pool ((k, a) ∷ m) = share pool a + used pool m

pub used-put_new :
    (pool id : String) (a : DiskAllocation) (m : Dict DiskAllocation)
    → Dict.get id m ≡ none
    → used pool (Dict.put id a m) ≡ share pool a + used pool m
unfolding used Dict.put Dict.get
used-put_new pool id a [] h = refl
used-put_new pool id a ((k, b) ∷ m) h = ground (arith, used-put_new pool id a m)

pub remove_absent :
    (id : String) (m : Dict DiskAllocation) → Dict.get id m ≡ none → Dict.remove id m ≡ m
unfolding Dict.remove Dict.get
remove_absent id [] h = refl
remove_absent id ((k, b) ∷ m) h = ground (arith, remove_absent id m)

pub used-remove :
    (pool id : String) (a : DiskAllocation) (m : Dict DiskAllocation)
    → Distinct m
    → Dict.get id m ≡ some a
    → used pool m ≡ share pool a + used pool (Dict.remove id m)
unfolding used Dict.remove Dict.get
used-remove pool id a [] d h = ground (arith, h)
used-remove pool id a ((k, b) ∷ m) d h =
    ground (arith, eq_iff k id, remove_absent id m, used-remove pool id a m d.1)

-- An allocation replaced by one with the same pool and size.
pub used-put_same :
    (pool id : String) (a b : DiskAllocation) (m : Dict DiskAllocation)
    → Dict.get id m ≡ some a
    → share pool b ≡ share pool a
    → used pool (Dict.put id b m) ≡ used pool m
unfolding used Dict.put Dict.get
used-put_same pool id a b [] h e = ground (arith, h)
used-put_same pool id a b ((k, c) ∷ m) h e = ground (arith, used-put_same pool id a b m)

pub used-no_disks :
    (pool : String) (m : Dict DiskAllocation)
    → any (is_in pool) (Dict.values m) ≡ false
    → used pool m ≡ 0
unfolding used
used-no_disks pool [] h = refl
used-no_disks pool ((k, a) ∷ m) h = ground (arith, used-no_disks pool m)

-- What the pool records agrees with the gigabytes that its disks take, and these keep its quota.
pub record IsBalanced (p : Pool) (taken : ℕ) : Type 0 where
  pub total : ℕ
  pub total_lem : p.total_size_gb ≡ pos total
  pub fits : total ≤ max_int64
  pub taken_le : taken ≤ total
  pub allocated_lem : p.allocated_size_gb ≡ pos taken
  pub available_lem : p.available_size_gb ≡ pos (total - taken)
  pub in_quota : (ltb_ℤ (pos 0) p.quota && ltb_ℤ p.quota (pos taken)) ≡ false

pub take_space-IsBalanced :
    (host : Host) (now : Time) (s taken : ℕ) (p : Pool)
    → (h : IsBalanced p taken) → ltb_ℤ p.available_size_gb (pos s) ≡ false
    → (ltb_ℤ (pos 0) p.quota && ltb_ℤ p.quota (add_int64 p.allocated_size_gb (pos s))) ≡ false
    → IsBalanced (take_space host now (pos s) p) (s + taken)
unfolding take_space
take_space-IsBalanced host now s taken p h room q =
    let left = h.total - taken in
    let room' : s ≤ left = ground (arith, room, h.available_lem) in
    let sum : add_int64 p.allocated_size_gb (pos s) ≡ pos (s + taken) =
      rw h.allocated_lem
        (add_int64_fits taken s (omega (arith, h.fits, h.taken_le, room')) ∙ ground arith) in
    record {
      total = h.total;
      total_lem = h.total_lem;
      fits = h.fits;
      taken_le = omega (arith, h.taken_le, room');
      allocated_lem = sum;
      available_lem =
          rw h.available_lem
            (sub_int64_fits left s room' (omega (arith, h.fits)) ∙ ground (arith, h.taken_le));
      in_quota = ground (arith, sum, q);
    }

pub give_space-IsBalanced :
    (now : Time) (s taken : ℕ) (p : Pool)
    → IsBalanced p (s + taken)
    → IsBalanced (give_space now (pos s) p) taken
unfolding give_space
give_space-IsBalanced now s taken p h =
    let left = h.total - (s + taken) in
    record {
      total = h.total;
      total_lem = h.total_lem;
      fits = h.fits;
      taken_le = omega (arith, h.taken_le);
      allocated_lem = rw h.allocated_lem (
          sub_int64_fits (s + taken) s (omega arith) (omega (arith, h.fits, h.taken_le))
          ∙ ground arith);
      available_lem =
          rw h.available_lem (
            add_int64_fits left s (omega (arith, h.fits, h.taken_le)) ∙ ground (arith, h.taken_le));
      in_quota = ground (arith, h.in_quota);
    }

pub resize-IsBalanced :
    (now : Time) (n taken : ℕ) (p : Pool)
    → IsBalanced p taken
    → ltb_ℤ p.allocated_size_gb (pos n) ≡ true
    → n ≤ max_int64
    → IsBalanced (resize now (pos n) p) taken
unfolding resize
resize-IsBalanced now n taken p h more fits =
    let le : taken ≤ n = ground (arith, more, h.allocated_lem) in
    record {
      total = n;
      total_lem = refl;
      fits = fits;
      taken_le = le;
      allocated_lem = h.allocated_lem;
      available_lem = rw h.allocated_lem (sub_int64_fits n taken le fits);
      in_quota = h.in_quota;
    }

pub new-IsBalanced :
    (host : Host) (now1 now2 : Time) (n : ℕ) (p : Pool)
    → p.total_size_gb ≡ pos n
    → n ≤ max_int64
    → p.allocated_size_gb ≡ pos 0
    → (p.available_size_gb ≡ pos 0) ⊎ (p.available_size_gb ≡ pos n)
    → IsBalanced (with_defaults host now2 (with_sizes now1 p)) 0
unfolding with_defaults with_sizes
new-IsBalanced host now1 now2 n p t fits a v = record {
  total = n;
  total_lem = t;
  fits = fits;
  taken_le = omega arith;
  allocated_lem = a;
  available_lem = ground (arith, t, v);
  in_quota = ground arith;
}

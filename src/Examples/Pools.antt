-- ===== src/Examples/Pools.antt =====
-- Examples of storage pools (internal/storage/manager.go).
use compute_agent.Base.{
  ◌≡◌, ◌<>◌, refl, String, true, none, some, [], ◌∷◌, str_eq, arith, inl, inr, Bool-cases,
}
use compute_agent.Base.Dict
use compute_agent.Base.Int.{pos, add_int64}
use compute_agent.StoragePools.{Pool, Host, Storage, local, disk_id, allocate_disk, free_disk}
use compute_agent.StoragePools.Accounts.{IsBalanced, used}
use compute_agent.StoragePools.Laws.{IsAccount, IsSound}
use compute_agent.StoragePools.Soundness.{allocates, operate, operate-IsSound}
use compute_agent.StoragePools.RoundTrip.{is_ok, SameAmounts, free_disk-allocate_disk}

abbrev host : Host
host = record {
  unix_nano = λ t. "1";
  join_path = λ a b. a <> "/" <> b;
  percent = λ a t. pos 10;
  show_int = λ n. "";
}

abbrev fast : Pool
fast = record {
  name = "fast";
  kind = local;
  uuid = "pool-1";
  created_at = 1;
  last_updated = 1;
  total_size_gb = pos 100;
  available_size_gb = pos 100;
  allocated_size_gb = pos 0;
  config = ("path", "/srv") ∷ [];
  quota = pos 50;
  warning_threshold = pos 80;
  is_active = true;
  is_healthy = true;
  status = "healthy";
  labels = [];
}

abbrev one_pool : Storage
one_pool = record { pools = ("fast", fast) ∷ []; allocations = [] }

fast-IsBalanced : IsBalanced fast 0
fast-IsBalanced = record {
  total = 100;
  total_lem = refl;
  fits = omega arith;
  taken_le = omega arith;
  allocated_lem = refl;
  available_lem = refl;
  in_quota = refl;
}

one_pool-IsAccount : (q : String) → IsAccount (Dict.get q one_pool.pools) (used q [])
unfolding Dict.get used
one_pool-IsAccount q = elim (Bool-cases (str_eq "fast" q)) [
  | inl e ↦ rw e fast-IsBalanced
  | inr e ↦ rw e refl
]

one_pool-IsSound : IsSound one_pool
unfolding Dict.get
one_pool-IsSound = record {
  distinct = tt;
  sizes = λ id a e. ground (arith, e);
  accounts = one_pool-IsAccount;
}

operate-IsSound_example : IsSound (operate host (allocates 1 2 3 "fast" (pos 20) "raw") one_pool)
unfolding Dict.get
operate-IsSound_example =
    operate-IsSound host (allocates 1 2 3 "fast" (pos 20) "raw") one_pool refl one_pool-IsSound

free_disk-allocate_disk_example :
    let allocated = allocate_disk host 1 2 3 "fast" (pos 20) "raw" one_pool in
    let freed = free_disk 4 (disk_id host 1) allocated.1 in
    (is_ok allocated.0 ≡ true)
    × (freed.0 ≡ none)
    × (freed.1.allocations ≡ [])
    × ((q : Pool) × (Dict.get "fast" freed.1.pools ≡ some q) × SameAmounts fast q)
unfolding Dict.get add_int64
free_disk-allocate_disk_example =
    free_disk-allocate_disk host 1 2 3 4 "fast" (pos 20) "raw" fast one_pool one_pool-IsSound refl
      refl refl refl refl

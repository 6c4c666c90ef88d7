-- ===== src/StoragePools/Soundness.antt =====
-- Every operation on storage pools keeps their accounts (internal/storage/manager.go).
use compute_agent.Base.{
  ◌≤◌, ◌≡◌, subst, refl, sym, String, true, none, str_eq, eq_iff, any, arith, Bool-cases,
  Option-cases, inl, inr, ◌⊎◌, is_blank,
}
use compute_agent.Base.Dict
use compute_agent.Base.Dict.{Dict, Distinct, get-put, get-remove, put-Distinct, remove-Distinct}
use compute_agent.Base.Int.{ℤ, pos, pos_part, ltb_ℤ, max_int64}
use compute_agent.Models.{Time}
use compute_agent.StoragePools.{
  Pool, Storage, Host, is_in, is_known, disk_id, resize, with_sizes, with_defaults, create_pool,
  create_valid, validate_pool_config, delete_pool, allocate_disk, free_disk, attach_disk,
  detach_disk, resize_pool,
}
use compute_agent.StoragePools.Accounts.{
  used, used-no_disks, IsBalanced, resize-IsBalanced, new-IsBalanced,
}
use compute_agent.StoragePools.Laws.{
  IsSound, positive, accounts-put, account-some, account-none, allocate_from-IsSound,
  free_allocation-IsSound, same_share-IsSound,
}

pub data Operation : Type 0 where
  creates : Time → Time → Pool → Operation
  removes : String → Operation
  allocates : Time → Time → Time → String → ℤ → String → Operation
  frees : Time → String → Operation
  attaches : String → String → Operation
  detaches : String → Operation
  resizes : Time → String → ℤ → Operation

-- Sizes are `int64`. A new pool has nothing allocated and, if it says what is available, all of it
-- is. The identifier of a new disk, which is made of the time, is not in use.
abbrev pub IsAllowed : Host → Operation → Storage → Type 0
IsAllowed host (creates now1 now2 p) m =
    (pos_part p.total_size_gb ≤ max_int64)
    × (p.allocated_size_gb ≡ pos 0)
    × ((p.available_size_gb ≡ pos 0) ⊎ (p.available_size_gb ≡ p.total_size_gb))
IsAllowed host (removes pool) m = Unit
IsAllowed host (allocates now1 now2 now3 pool size format) m =
    Dict.get (disk_id host now1) m.allocations ≡ none
IsAllowed host (frees now id) m = Unit
IsAllowed host (attaches id workload) m = Unit
IsAllowed host (detaches id) m = Unit
IsAllowed host (resizes now pool size) m = pos_part size ≤ max_int64

unfoldable pub operate : Host → Operation → Storage → Storage
operate host (creates now1 now2 p) m = (create_pool host now1 now2 p m).1
operate host (removes pool) m = (delete_pool pool m).1
operate host (allocates now1 now2 now3 pool size format) m =
    (allocate_disk host now1 now2 now3 pool size format m).1
operate host (frees now id) m = (free_disk now id m).1
operate host (attaches id workload) m = (attach_disk id workload m).1
operate host (detaches id) m = (detach_disk id m).1
operate host (resizes now pool size) m = (resize_pool host now pool size m).1

create_pool-IsSound :
    (host : Host) (now1 now2 : Time) (p : Pool) (m : Storage)
    → IsAllowed host (creates now1 now2 p) m
    → IsSound m
    → IsSound (create_pool host now1 now2 p m).1
unfolding create_pool create_valid
create_pool-IsSound host now1 now2 p m a h =
    let r = create_pool host now1 now2 p m in
    elim (Bool-cases (is_blank p.name)) [
      | inl c1 ↦ rw c1 h
      | inr c1 ↦ elim (Option-cases (Dict.get p.name m.pools)) [
        | inr (q, c2) ↦ rw (c1, c2) h
        | inl c2 ↦ elim (Bool-cases (ltb_ℤ (pos 0) p.total_size_gb)) [
          | inr c3 ↦ rw (c1, c2, c3) h
          | inl c3 ↦ elim (Option-cases (validate_pool_config (with_sizes now1 p))) [
            | inr (e, c4) ↦ rw (c1, c2, c3, c4) h
            | inl c4 ↦
                rw (c1, c2, c3, c4)
                  (record {
                    distinct = h.distinct;
                    sizes = h.sizes;
                    accounts =
                        accounts-put p.name (with_defaults host now2 (with_sizes now1 p)) m
                          m.allocations h.accounts
                          (rw (account-none p.name m h c2) (
                            new-IsBalanced host now1 now2 (pos_part p.total_size_gb) p
                              (positive p.total_size_gb c3) a.0 a.1
                              (subst
                                (λ x. (p.available_size_gb ≡ pos 0) ⊎ (p.available_size_gb ≡ x))
                                (positive p.total_size_gb c3) a.2)))
                          (λ q e. refl);
                  })
          ]
        ]
      ]
    ]

delete_pool-IsSound : (pool : String) (m : Storage) → IsSound m → IsSound (delete_pool pool m).1
unfolding delete_pool
delete_pool-IsSound pool m h = elim (Bool-cases (any (is_in pool) (Dict.values m.allocations))) [
  | inl c1 ↦ rw c1 h
  | inr c1 ↦ elim (Bool-cases (is_known (Dict.get pool m.pools))) [
    | inr c2 ↦ rw (c1, c2) h
    | inl c2 ↦
        rw (c1, c2)
          (record {
            distinct = h.distinct;
            sizes = h.sizes;
            accounts = λ q. rw get-remove (elim (Bool-cases (str_eq pool q)) [
              | inl e ↦ rw e (
                  subst (λ x. used x m.allocations ≡ 0) ((eq_iff pool q).0 e)
                    (used-no_disks pool m.allocations c1))
              | inr e ↦ rw e (h.accounts q)
            ]);
          })
  ]
]

resize_pool-IsSound :
    (host : Host) (now : Time) (pool : String) (size : ℤ) (m : Storage)
    → pos_part size ≤ max_int64
    → IsSound m
    → IsSound (resize_pool host now pool size m).1
unfolding resize_pool
resize_pool-IsSound host now pool size m fits h = elim (Option-cases (Dict.get pool m.pools)) [
  | inl c1 ↦ rw (resize_pool, c1) h
  | inr (p, c1) ↦ elim (Bool-cases (ltb_ℤ p.allocated_size_gb size)) [
    | inr c2 ↦ rw (resize_pool, c1, c2) h
    | inl c2 ↦
        let b = account-some pool p m h c1 in
        let is_pos : size ≡ pos (pos_part size) =
          positive size (ground (arith, c2, b.allocated_lem)) in
        rw (resize_pool, c1, c2)
          (record {
            distinct = h.distinct;
            sizes = h.sizes;
            accounts =
                accounts-put pool (resize now size p) m m.allocations h.accounts
                  (subst (λ x. IsBalanced (resize now x p) (used pool m.allocations)) (sym is_pos)
                    (resize-IsBalanced now (pos_part size) (used pool m.allocations) p b
                      (subst (λ x. ltb_ℤ p.allocated_size_gb x ≡ true) is_pos c2) fits))
                  (λ q e. refl);
          })
  ]
]

-- Every operation that is allowed keeps the accounts of the pools sound: each pool records as
-- allocated what its disks take, as available the rest of its size, and its disks are within its
-- quota; no disk is of a pool that is not known. Allowed is to create a pool that has nothing
-- allocated and says nothing of what is available or all of it, to allocate under an identifier
-- that is not in use, and to ask for sizes that are `int64`.
pub operate-IsSound :
    (host : Host) (op : Operation) (m : Storage)
    → IsAllowed host op m
    → IsSound m
    → IsSound (operate host op m)
unfolding operate allocate_disk free_disk attach_disk detach_disk
operate-IsSound host (creates now1 now2 p) m a h = create_pool-IsSound host now1 now2 p m a h
operate-IsSound host (removes pool) m a h = delete_pool-IsSound pool m h
operate-IsSound host (allocates now1 now2 now3 pool size format) m a h =
    elim (Option-cases (Dict.get pool m.pools)) [
      | inl e ↦ rw (operate, allocate_disk, e) h
      | inr (p, e) ↦
          rw (operate, allocate_disk, e)
            (allocate_from-IsSound host now1 now2 now3 pool size format p m a e h)
    ]
operate-IsSound host (frees now id) m a h = elim (Option-cases (Dict.get id m.allocations)) [
  | inl e ↦ rw (operate, free_disk, e) h
  | inr (d, e) ↦ rw (operate, free_disk, e) (free_allocation-IsSound now id d m e h)
]
operate-IsSound host (attaches id workload) m a h =
    elim (Option-cases (Dict.get id m.allocations)) [
      | inl e ↦ rw (operate, attach_disk, e) h
      | inr (d, e) ↦ elim (Bool-cases (is_blank d.attached_to)) [
        | inr c ↦ rw (operate, attach_disk, e, c) h
        | inl c ↦
            rw (operate, attach_disk, e, c)
              (same_share-IsSound id d (record d { attached_to = workload }) m e refl refl h)
      ]
    ]
operate-IsSound host (detaches id) m a h = elim (Option-cases (Dict.get id m.allocations)) [
  | inl e ↦ rw (operate, detach_disk, e) h
  | inr (d, e) ↦
      rw (operate, detach_disk, e)
        (same_share-IsSound id d (record d { attached_to = "" }) m e refl refl h)
]
operate-IsSound host (resizes now pool size) m a h = resize_pool-IsSound host now pool size m a h

-- ===== src/StoragePools/Laws.antt =====
-- What the operations on storage pools keep (internal/storage/manager.go).
use compute_agent.Base.{
  ℕ, ◌+◌, ◌≡◌, ◌∙◌, subst, refl, sym, String, true, false, ◌&&◌, Option, none, some, str_eq, eq_iff,
  eq_refl, arith, Bool-cases, Option-cases, inl, inr, is_blank,
}
use compute_agent.Base.Dict
use compute_agent.Base.Dict.{Dict, Distinct, get-put, get-remove, put-Distinct, remove-Distinct}
use compute_agent.Base.Int.{ℤ, pos, negsuc, pos_part, ltb_ℤ, add_int64}
use compute_agent.Models.{Time}
use compute_agent.StoragePools.{
  Pool, DiskAllocation, Storage, Host, disk_id, new_allocation, take_space, give_space,
  allocate_from, free_allocation,
}
use compute_agent.StoragePools.Accounts.{
  share, used, used-put_new, used-remove, used-put_same, IsBalanced, take_space-IsBalanced,
  give_space-IsBalanced,
}

-- A pool that is known is balanced; no disk is of a pool that is not.
abbrev pub IsAccount : Option Pool → ℕ → Type 0
IsAccount none taken = taken ≡ 0
IsAccount (some p) taken = IsBalanced p taken

pub record IsSound (m : Storage) : Type 0 where
  pub distinct : Distinct m.allocations
  pub sizes :
      (id : String) (a : DiskAllocation)
      → Dict.get id m.allocations ≡ some a
      → a.size_gb ≡ pos (pos_part a.size_gb)
  pub accounts : (pool : String) → IsAccount (Dict.get pool m.pools) (used pool m.allocations)

pub accounts-put :
    (pool : String) (p : Pool) (m : Storage) (allocations : Dict DiskAllocation)
    → ((q : String) → IsAccount (Dict.get q m.pools) (used q m.allocations))
    → IsBalanced p (used pool allocations)
    → ((q : String) → str_eq pool q ≡ false → used q allocations ≡ used q m.allocations)
    → (q : String) → IsAccount (Dict.get q (Dict.put pool p m.pools)) (used q allocations)
accounts-put pool p m allocations old new other q = rw get-put (elim (Bool-cases (str_eq pool q)) [
  | inl e ↦ rw e (subst (λ x. IsBalanced p (used x allocations)) ((eq_iff pool q).0 e) new)
  | inr e ↦ rw (e, other q e) (old q)
])

-- The account of a pool that is known.
pub account-some :
    (pool : String) (p : Pool) (m : Storage)
    → IsSound m
    → Dict.get pool m.pools ≡ some p
    → IsBalanced p (used pool m.allocations)
account-some pool p m h e = subst (λ o. IsAccount o (used pool m.allocations)) e (h.accounts pool)

pub account-none :
    (pool : String) (m : Storage)
    → IsSound m
    → Dict.get pool m.pools ≡ none
    → used pool m.allocations ≡ 0
account-none pool m h e = subst (λ o. IsAccount o (used pool m.allocations)) e (h.accounts pool)

pub positive : (size : ℤ) → ltb_ℤ (pos 0) size ≡ true → size ≡ pos (pos_part size)
positive (pos n) h = refl
positive (negsuc n) h = ground (arith, h)

module _ (id pool : String) (a : DiskAllocation) (p : Pool) (m : Storage) where
  -- A disk added to a pool that has taken its size.
  added-IsSound :
      Dict.get id m.allocations ≡ none
      → a.pool_name ≡ pool
      → a.size_gb ≡ pos (pos_part a.size_gb)
      → IsBalanced p (pos_part a.size_gb + used pool m.allocations)
      → IsSound m
      → IsSound
          (record { pools = Dict.put pool p m.pools; allocations = Dict.put id a m.allocations })
  added-IsSound fresh ea size new h = record {
    distinct = put-Distinct id a m.allocations h.distinct;
    sizes = λ j c f. ground (arith, get-put j id a m.allocations, size, h.sizes j c);
    accounts =
        accounts-put pool p m (Dict.put id a m.allocations) h.accounts
          (rw (used-put_new pool id a m.allocations fresh, ea, eq_refl) new)
          (λ q e. rw (used-put_new q id a m.allocations fresh, ea, e) (omega arith));
  }

  -- A disk removed from a pool that has its size back.
  removed-IsSound :
      Dict.get id m.allocations ≡ some a
      → a.pool_name ≡ pool
      → IsBalanced p (used pool (Dict.remove id m.allocations))
      → IsSound m
      → IsSound
          (record { pools = Dict.put pool p m.pools; allocations = Dict.remove id m.allocations })
  removed-IsSound here ea new h = record {
    distinct = remove-Distinct id m.allocations h.distinct;
    sizes = λ j c f. ground (arith, get-remove j id m.allocations, h.sizes j c);
    accounts = accounts-put pool p m (Dict.remove id m.allocations) h.accounts new (λ q e.
        let moved : share q a ≡ 0 = rw (ea, e) refl in
        omega (arith, moved, used-remove q id a m.allocations h.distinct here));
  }

pub allocate_from-IsSound :
    (host : Host) (now1 now2 now3 : Time) (pool : String) (size : ℤ) (format : String) (p : Pool)
    (m : Storage)
    → Dict.get (disk_id host now1) m.allocations ≡ none
    → Dict.get pool m.pools ≡ some p
    → IsSound m
    → IsSound (allocate_from host now1 now2 now3 pool size format p m).1
unfolding allocate_from new_allocation
allocate_from-IsSound host now1 now2 now3 pool size format p m fresh e h =
    elim (Bool-cases (ltb_ℤ (pos 0) size)) [
      | inr c1 ↦ rw c1 h
      | inl c1 ↦ elim (Bool-cases (ltb_ℤ p.available_size_gb size)) [
        | inl c2 ↦ rw (c1, c2) h
        | inr c2 ↦
            elim (Bool-cases
              (ltb_ℤ (pos 0) p.quota && ltb_ℤ p.quota (add_int64 p.allocated_size_gb size))) [
                | inl c3 ↦ rw (c1, c2, c3) h
                | inr c3 ↦
                    let a = new_allocation host now1 now2 p pool size format in
                    let is_pos = positive size c1 in
                    rw (c1, c2, c3)
                      (added-IsSound (disk_id host now1) pool a (take_space host now3 size p) m
                        fresh refl is_pos
                        (subst
                          (λ x.
                            IsBalanced (take_space host now3 x p)
                              (pos_part size + used pool m.allocations))
                          (sym is_pos)
                          (take_space-IsBalanced host now3 (pos_part size) (used pool m.allocations)
                            p (account-some pool p m h e)
                            (subst (λ x. ltb_ℤ p.available_size_gb x ≡ false) is_pos c2)
                            (subst
                              (λ x.
                                (ltb_ℤ (pos 0) p.quota
                                  && ltb_ℤ p.quota (add_int64 p.allocated_size_gb x))
                                ≡ false)
                              is_pos c3)))
                        h)
              ]
      ]
    ]

pub free_allocation-IsSound :
    (now : Time) (id : String) (a : DiskAllocation) (m : Storage)
    → Dict.get id m.allocations ≡ some a
    → IsSound m
    → IsSound (free_allocation now id a m).1
unfolding free_allocation
free_allocation-IsSound now id a m e h = elim (Bool-cases (is_blank a.attached_to)) [
  | inr c ↦ rw c h
  | inl c ↦ elim (Option-cases (Dict.get a.pool_name m.pools)) [
    | inl n ↦ rw (c, n) h
    | inr (p, f) ↦
        let rest = used a.pool_name (Dict.remove id m.allocations) in
        let here : used a.pool_name m.allocations ≡ pos_part a.size_gb + rest =
          used-remove a.pool_name id a m.allocations h.distinct e ∙ rw eq_refl refl in
        rw (c, f)
          (removed-IsSound id a.pool_name a (give_space now a.size_gb p) m e refl
            (subst (λ x. IsBalanced (give_space now x p) rest) (sym (h.sizes id a e))
              (give_space-IsBalanced now (pos_part a.size_gb) rest p
                (subst (IsBalanced p) here (account-some a.pool_name p m h f))))
            h)
  ]
]

-- An allocation that changes in neither pool nor size.
pub same_share-IsSound :
    (id : String) (a b : DiskAllocation) (m : Storage)
    → Dict.get id m.allocations ≡ some a
    → b.size_gb ≡ a.size_gb
    → b.pool_name ≡ a.pool_name
    → IsSound m
    → IsSound (record m { allocations = Dict.put id b m.allocations })
same_share-IsSound id a b m e es ep h = record {
  distinct = put-Distinct id b m.allocations h.distinct;
  sizes = λ j c f. ground (arith, get-put j id b m.allocations, h.sizes id a e, h.sizes j c);
  accounts = λ q. rw (used-put_same q id a b m.allocations e (rw (es, ep) refl)) (h.accounts q);
}

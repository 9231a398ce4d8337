-- ===== src/Store/Leases/Exclusive.antt =====
-- A lease that is claimed belongs to one worker until its heartbeat is older than the ttl.
use huxio.Prelude.{
  ℕ, zero, suc, ◌+◌, ◌≤◌, ◌≡◌, ◌≢◌, refl, ap, ◌⊎◌, inl, inr, true, false, some, List, [], ◌∷◌, ◌++◌,
  String, str_eq, eq_iff, arith, ◌==◌, if◌then◌else◌, contains, keep, sort_by, All, All-imp,
  All-keep, All-sort_by, All-take, All-append, Bool-cases,
}
use huxio.Store.Leases.{
  PartitionLease, Leases, claimable, lease_before, keys, update_leases, ensure_rows, has_row,
  free_row, claim_rows, claim_partitions, taken, among,
}
use huxio.Store.Leases.Claims.{not_in_keys}

module _ (pool me : String) (at key : ℕ) where
  -- The pool's row of the key is leased to the worker, with the heartbeat of that time.
  abbrev HoldsLease : PartitionLease → Type 0
  HoldsLease l =
      str_eq l.pool pool ≡ true
      → l.partition_key ≡ key
      → (l.owner_id ≡ some me) × (l.heartbeat_at ≡ some at)

  abbrev pub Leased : Leases → Type 0
  Leased = All HoldsLease

  update_leases-Leased :
      (picked : List ℕ) (ls : Leases)
      → contains picked key ≡ true
      → Leased (update_leases (among pool picked) (taken me at) ls)
  unfolding update_leases
  update_leases-Leased picked [] h = tt
  update_leases-Leased picked (l ∷ ls) h =
      (row (Bool-cases (among pool picked l)), update_leases-Leased picked ls h)
    where
      row :
          (among pool picked l ≡ true) ⊎ (among pool picked l ≡ false)
          → HoldsLease (if among pool picked l then taken me at l else l)
      row (inl e) = rw e (λ p k. (refl, refl))
      row (inr e) = rw e (λ p k. ground (arith, ap (λ i. contains picked i) k))

  -- Materialising the missing rows leaves a lease that is there alone.
  ensure_rows-Leased :
      (n : ℕ) (ls : Leases)
      → has_row pool key ls ≡ true
      → Leased ls
      → Leased (ensure_rows n pool ls)
  unfolding ensure_rows
  ensure_rows-Leased zero ls here h = h
  ensure_rows-Leased (suc n) ls here h =
      cases (Bool-cases (has_row pool n ls)) (ensure_rows-Leased n ls here h)
    where
      cases :
          (has_row pool n ls ≡ true) ⊎ (has_row pool n ls ≡ false)
          → Leased (ensure_rows n pool ls)
          → Leased (
              if has_row pool n ls
              then ensure_rows n pool ls
              else ensure_rows n pool ls ++ free_row pool n ∷ [])
      cases (inl e) rest = rw e rest
      cases (inr e) rest = rw e (
          All-append HoldsLease (ensure_rows n pool ls) (free_row pool n ∷ []) rest
            ((λ p k. cc (k, here, e)), tt))

  claim_rows-Leased :
      (other : String) (now ttl limit : ℕ) (ls : Leases)
      → me ≢ other
      → me ≢ ""
      → now ≤ at + ttl
      → Leased ls
      → All (λ l. l.partition_key ≢ key) (claim_rows pool other now ttl limit ls)
  unfolding claim_rows
  claim_rows-Leased other now ttl limit ls ne named fresh h =
      let open_rows = keep (claimable pool other now ttl) ls in
      All-take (λ l. l.partition_key ≢ key) limit (sort_by (lease_before other) open_rows)
        (All-sort_by (λ l. l.partition_key ≢ key) (lease_before other) open_rows
          (All-keep (λ l. l.partition_key ≢ key) (claimable pool other now ttl) ls
            (All-imp HoldsLease (λ l. claimable pool other now ttl l ≡ true → l.partition_key ≢ key)
              ls (λ l held c k. refused l c k held) h)))
    where
      pool_matches :
          (l : PartitionLease) → claimable pool other now ttl l ≡ true → str_eq l.pool pool ≡ true
      pool_matches l c = unfold claimable in ground arith

      refused :
          (l : PartitionLease)
          → claimable pool other now ttl l ≡ true
          → l.partition_key ≡ key
          → HoldsLease l
          → ⊥
      refused l c k held =
          unfold claimable in
          ground
            (arith, eq_iff l.pool pool, eq_iff me other, eq_iff me "", held (pool_matches l c) k)

  claim_spares :
      (other : String) (partitions now ttl limit : ℕ) (ls : Leases)
      → me ≢ other
      → me ≢ ""
      → now ≤ at + ttl
      → has_row pool key ls ≡ true
      → Leased ls
      → contains (claim_partitions partitions pool other now ttl limit ls).1 key ≡ false
  unfolding claim_partitions
  claim_spares other partitions now ttl limit ls ne named fresh here h =
      let full = ensure_rows partitions pool ls in
      elim (Bool-cases (limit == 0)) [
        | inl zero' ↦ rw zero' refl
        | inr more ↦ rw more (
            not_in_keys key (claim_rows pool other now ttl limit full) (
              claim_rows-Leased other now ttl limit full ne named fresh
                (ensure_rows-Leased partitions ls here h)))
      ]

  claim-Leased :
      (partitions ttl limit : ℕ) (ls : Leases)
      → contains (claim_partitions partitions pool me at ttl limit ls).1 key ≡ true
      → Leased (claim_partitions partitions pool me at ttl limit ls).0
  claim-Leased partitions ttl limit ls mine = elim (Bool-cases (limit == 0)) [
    | inl zero' ↦ absurd (unfold claim_partitions in cc (rw zero' at mine))
    | inr more ↦
        unfold claim_partitions in
        rw more (
          update_leases-Leased
            (keys (claim_rows pool me at ttl limit (ensure_rows partitions pool ls)))
            (ensure_rows partitions pool ls) (unfold claim_partitions in rw more at mine))
  ]

-- A partition that a worker has claimed goes to no other worker while the lease's heartbeat is at
-- most a ttl old: whatever else that worker may claim, its result does not hold the partition.
pub lease_exclusive :
    (partitions : ℕ) (pool me other : String) (at now ttl limit limit' key : ℕ) (ls : Leases)
    → me ≢ other
    → me ≢ ""
    → now ≤ at + ttl
    → contains (claim_partitions partitions pool me at ttl limit ls).1 key ≡ true
    → let after = (claim_partitions partitions pool me at ttl limit ls).0 in
      has_row pool key after ≡ true
      → contains (claim_partitions partitions pool other now ttl limit' after).1 key ≡ false
lease_exclusive partitions pool me other at now ttl limit limit' key ls ne named fresh mine here =
    let after = (claim_partitions partitions pool me at ttl limit ls).0 in
    claim_spares pool me at key other partitions now ttl limit' after ne named fresh here
      (claim-Leased pool me at key partitions ttl limit ls mine)

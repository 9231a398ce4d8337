-- ===== src/Store/Leases/Claims.antt =====
-- Which leases a claim takes.
use huxio.Prelude.{
  ℕ, zero, suc, ◌≤◌, ◌≡◌, ◌≢◌, refl, inl, inr, Bool, true, false, ◌&&◌, ◌||◌, some, List, [], ◌∷◌,
  String, str_eq, arith, ltb, leb, ◌==◌, if◌then◌else◌, contains, keep, take, length, sort_by, All,
  All-imp, All-keep, All-sort_by, All-take, All-zip, Bool-cases,
}
use huxio.Prelude.Sort.{IsSorted, sort_by-IsSorted, length-keep-sort_by}
use huxio.Store.Leases.{
  PartitionLease, Leases, is_free, claimable, rank, lease_before, keys, update_leases, ensure_rows,
  claim_rows, claim_partitions, taken, among,
}

lease_before_trans :
    (me : String) (a b c : PartitionLease)
    → lease_before me a b ≡ true
    → lease_before me b c ≡ true
    → lease_before me a c ≡ true
unfolding lease_before
lease_before_trans me a b c h k =
    omega_order (rank me a) (rank me b) (rank me c) a.partition_key b.partition_key c.partition_key
      h k
  where
    omega_order :
        (x y z i j l : ℕ)
        → (ltb x y || (x == y && leb i j)) ≡ true
        → (ltb y z || (y == z && leb j l)) ≡ true
        → (ltb x z || (x == z && leb i l)) ≡ true
    omega_order x y z i j l h k = ground arith

lease_before_total :
    (me : String) (a b : PartitionLease) → lease_before me a b ≡ false → lease_before me b a ≡ true
unfolding lease_before
lease_before_total me a b h = order (rank me a) (rank me b) a.partition_key b.partition_key h
  where
    order :
        (x y i j : ℕ)
        → (ltb x y || (x == y && leb i j)) ≡ false
        → (ltb y x || (y == x && leb j i)) ≡ true
    order x y i j h = ground arith

-- Nothing that comes after an owned lease is free.
free_first :
    (me : String) (l : PartitionLease) (ls : Leases)
    → is_free l ≡ false
    → All (λ r. lease_before me l r ≡ true) ls
    → length (keep is_free ls) ≡ 0
unfolding lease_before
free_first me l [] h o = refl
free_first me l (r ∷ ls) h o = ground (arith, free_first me l ls h o.1, o.0)

sorted_free :
    (me : String) (n : ℕ) (ls : Leases)
    → IsSorted (lease_before me) ls
    → n ≤ length (keep is_free ls)
    → All (λ l. is_free l ≡ true) (take n ls)
sorted_free me zero ls o h = tt
sorted_free me (suc n) [] o h = tt
sorted_free me (suc n) (l ∷ ls) o h = elim (Bool-cases (is_free l)) [
  | inl free ↦ (free, sorted_free me n ls o.1 (ground arith))
  | inr owned ↦ absurd (ground (arith, free_first me l ls owned o.0))
]

-- Where at least `limit` of the leases that a worker may claim are free, the claim takes free ones
-- only, and none of those that the worker holds.
pub claim_takes_free :
    (pool me : String) (now ttl limit : ℕ) (ls : Leases)
    → limit ≤ length (keep is_free (keep (claimable pool me now ttl) ls))
    → All (λ l. is_free l ≡ true) (claim_rows pool me now ttl limit ls)
unfolding claim_rows
claim_takes_free pool me now ttl limit ls h =
    let open_rows = keep (claimable pool me now ttl) ls in
    sorted_free me limit (sort_by (lease_before me) open_rows)
      (sort_by-IsSorted (lease_before me) (lease_before_trans me) (lease_before_total me) open_rows)
      (rw (length-keep-sort_by (lease_before me) is_free open_rows) h)

pub not_in_keys :
    (key : ℕ) (ls : Leases) → All (λ l. l.partition_key ≢ key) ls → contains (keys ls) key ≡ false
not_in_keys key [] h = refl
not_in_keys key (l ∷ ls) h = ground (arith, h.0, not_in_keys key ls h.1)

-- The row of the key in the pool belongs to the worker.
abbrev pub HeldBy : String → String → ℕ → Leases → Type 0
HeldBy pool me key =
    All (λ l. str_eq l.pool pool ≡ true → l.partition_key ≡ key → l.owner_id ≡ some me)

update_leases-HeldBy :
    (pool me : String) (now key : ℕ) (picked : List ℕ) (ls : Leases)
    → HeldBy pool me key ls
    → HeldBy pool me key (update_leases (among pool picked) (taken me now) ls)
unfolding update_leases
update_leases-HeldBy pool me now key picked [] h = tt
update_leases-HeldBy pool me now key picked (l ∷ ls) h =
    ((λ p e. row (among pool picked l) p e), update_leases-HeldBy pool me now key picked ls h.1)
  where
    row :
        (b : Bool)
        → str_eq (if b then taken me now l else l).pool pool ≡ true
        → (if b then taken me now l else l).partition_key ≡ key
        → (if b then taken me now l else l).owner_id ≡ some me
    row true p e = refl
    row false p e = h.0 p e

-- A claimed row that belongs to the pool, and is not one of the worker's.
abbrev Fresh : String → String → ℕ → PartitionLease → Type 0
Fresh pool me key l =
    (str_eq l.pool pool ≡ true)
    × (str_eq l.pool pool ≡ true → l.partition_key ≡ key → l.owner_id ≡ some me)

claim_rows-Fresh :
    (pool me : String) (now ttl limit key : ℕ) (ls : Leases)
    → HeldBy pool me key ls
    → All (Fresh pool me key) (claim_rows pool me now ttl limit ls)
unfolding claim_rows
claim_rows-Fresh pool me now ttl limit key ls held =
    let open_rows = keep (claimable pool me now ttl) ls in
    All-take (Fresh pool me key) limit (sort_by (lease_before me) open_rows) (
      All-sort_by (Fresh pool me key) (lease_before me) open_rows (
        All-keep (Fresh pool me key) (claimable pool me now ttl) ls (
          All-imp (λ l. str_eq l.pool pool ≡ true → l.partition_key ≡ key → l.owner_id ≡ some me)
            (λ l. claimable pool me now ttl l ≡ true → Fresh pool me key l) ls
            (λ l h c. (unfold claimable in ground arith, h)) held)))

claim_skips :
    (pool me : String) (now ttl limit key : ℕ) (ls : Leases)
    → HeldBy pool me key ls
    → limit ≤ length (keep is_free (keep (claimable pool me now ttl) ls))
    → contains (keys (claim_rows pool me now ttl limit ls)) key ≡ false
claim_skips pool me now ttl limit key ls held many =
    let rows = claim_rows pool me now ttl limit ls in
    not_in_keys key rows (
      All-imp (λ l. Fresh pool me key l × (is_free l ≡ true)) (λ l. l.partition_key ≢ key) rows
        (λ l h same. ground (arith, h.0.1 h.0.0 same))
        (All-zip (Fresh pool me key) (λ l. is_free l ≡ true) rows
          (claim_rows-Fresh pool me now ttl limit key ls held)
          (claim_takes_free pool me now ttl limit ls many)))

-- Where the pool's rows exist and at least `limit` of the claimable leases are free, a partition
-- that the worker holds is not in the result of its claim, and is still leased to it in the table:
-- the worker stops serving it, and no other worker can take it.
pub claim_strands :
    (partitions : ℕ) (pool me : String) (now ttl limit key : ℕ) (ls : Leases)
    → ensure_rows partitions pool ls ≡ ls
    → HeldBy pool me key ls
    → limit ≤ length (keep is_free (keep (claimable pool me now ttl) ls))
    → let (after, claimed) = claim_partitions partitions pool me now ttl limit ls in
      (contains claimed key ≡ false) × HeldBy pool me key after
unfolding claim_partitions
claim_strands partitions pool me now ttl limit key ls full held many =
    elim (Bool-cases (limit == 0)) [
      | inl none' ↦ rw none' (refl, held)
      | inr some' ↦
          rw (some', full)
            (
              claim_skips pool me now ttl limit key ls held many,
              update_leases-HeldBy pool me now key (keys (claim_rows pool me now ttl limit ls)) ls
                  held,
            )
    ]

-- ===== src/Store/Leases/Examples.antt =====
-- Two workers at one pool of two partitions.
use huxio.Prelude.{
  ℕ, ◌≤◌, ◌≡◌, ◌≢◌, refl, true, false, some, none, [], ◌∷◌, String, str_eq, eq_iff, arith, contains,
  keep, length,
}
use huxio.Store.Leases.{
  PartitionLease, Leases, claimable, claim_rows, claim_partitions, ensure_rows, update_leases,
  lease_before, has_row, is_free,
}
use huxio.Store.Leases.Claims.{HeldBy, claim_strands}
use huxio.Store.Leases.Exclusive.{lease_exclusive}
use huxio.Store.Leases.Named.{NamedLease, find_lease}

abbrev lease : ℕ → PartitionLease
lease key = record {
  partition_key = key;
  pool = "default";
  owner_id = none;
  heartbeat_at = none;
  deleted_at = none;
}

abbrev mine : PartitionLease
mine = record (lease 0) { owner_id = some "me"; heartbeat_at = some 90 }

claims_first : contains (claim_partitions 2 "default" "me" 100 30 1 []).1 0 ≡ true
unfolding claim_partitions claim_rows ensure_rows claimable lease_before
claims_first = refl

row_exists : has_row "default" 0 (claim_partitions 2 "default" "me" 100 30 1 []).0 ≡ true
unfolding claim_partitions claim_rows ensure_rows claimable lease_before update_leases
row_exists = refl

differs : (a b : String) → str_eq a b ≡ false → a ≢ b
differs a b h e = let same : str_eq a b ≡ true = (eq_iff a b).1 e in cc

lease_exclusive_example :
    contains
      (claim_partitions 2 "default" "other" 120 30 2
        (claim_partitions 2 "default" "me" 100 30 1 []).0).1
      0
    ≡ false
lease_exclusive_example =
    lease_exclusive 2 "default" "me" "other" 100 120 30 1 2 0 [] (differs "me" "other" refl)
      (differs "me" "" refl) (omega arith) claims_first row_exists

abbrev pool : Leases
pool = mine ∷ lease 1 ∷ []

complete_rows : ensure_rows 2 "default" pool ≡ pool
unfolding ensure_rows
complete_rows = refl

held : HeldBy "default" "me" 0 pool
held = (λ p k. refl, (λ p k. absurd (omega (arith, k)), tt))

one_free : 1 ≤ length (keep is_free (keep (claimable "default" "me" 100 30) pool))
unfolding claimable
one_free = omega arith

claim_strands_example :
    (contains (claim_partitions 2 "default" "me" 100 30 1 pool).1 0 ≡ false)
    × HeldBy "default" "me" 0 (claim_partitions 2 "default" "me" 100 30 1 pool).0
claim_strands_example = claim_strands 2 "default" "me" 100 30 1 0 pool complete_rows held one_free

abbrev lock : NamedLease
lock = record { name = "maintenance"; owner_id = "other"; heartbeat_at = 100 }

lock_found : find_lease "maintenance" (lock ∷ []) ≡ some lock
unfolding find_lease
lock_found = refl

-- ===== src/Dispatch/Lease/Share.antt =====
-- The fair share, and how many partitions a worker holds.
use huxio.Prelude.{
  ℕ, zero, suc, ◌+◌, ◌-◌, ◌*◌, ◌≤◌, ◌<◌, max, ◌≡◌, refl, inl, inr, Bool, true, false, not, ap, ◌||◌,
  List, [], ◌∷◌, String, arith, ◌==◌, contains, take, length, length-take, sort_by, keep,
  Bool-cases,
}
use native.Mathlib.Nat.{div-add-mod}
use huxio.Dispatch.Lease.{
  LeaseManager, unique_from, store, fair_share, Answers, Tick, balance, counted, rebalance,
}
use huxio.Store.Leases.{
  Leases, Worker, keys, lease_before, claimable, claim_rows, claim_partitions, count_live_workers,
  heartbeat_partitions, ensure_rows,
}

-- The shares of all workers cover the partitions, and one partition less each would not.
pub fair_share-covers :
    (partitions workers : ℕ)
    → 0 < workers
    → (partitions ≤ fair_share partitions workers * workers)
      × (fair_share partitions workers * workers < partitions + workers)
unfolding fair_share
fair_share-covers partitions zero h = elim h [ ]
fair_share-covers partitions (suc w) h =
    ground (arith, div-add-mod (partitions + suc w - 1) (suc w))

length-unique_from : (seen xs : List ℕ) → length (unique_from seen xs) ≤ length xs
unfolding unique_from
length-unique_from seen [] = omega arith
length-unique_from seen (x ∷ xs) =
    ground (arith, length-unique_from seen xs, length-unique_from (x ∷ seen) xs)

-- No value is twice in the list.
abbrev pub IsDistinct : List ℕ → Type 0
IsDistinct [] = Unit
IsDistinct (x ∷ xs) = (contains xs x ≡ false) × IsDistinct xs

unique_from-fresh :
    (seen xs : List ℕ) (x : ℕ) → contains seen x ≡ true → contains (unique_from seen xs) x ≡ false
unfolding unique_from
unique_from-fresh seen [] x h = refl
unique_from-fresh seen (y ∷ ys) x h =
    ground (arith, apart, unique_from-fresh seen ys x h, unique_from-fresh (y ∷ seen) ys x)
  where
    apart : contains seen y ≡ false → (y == x) ≡ false
    apart absent = elim (Bool-cases (y == x)) [
      | inl same ↦ let e : y ≡ x = ground arith in absurd (cc (ap (λ i. contains seen i) e))
      | inr other ↦ other
    ]

unique_from-IsDistinct : (seen xs : List ℕ) → IsDistinct (unique_from seen xs)
unfolding unique_from
unique_from-IsDistinct seen [] = tt
unique_from-IsDistinct seen (x ∷ xs) =
    cases (contains seen x) (unique_from-IsDistinct seen xs) (unique_from-IsDistinct (x ∷ seen) xs)
  where
    cases :
        (b : Bool)
        → IsDistinct (unique_from seen xs)
        → IsDistinct (unique_from (x ∷ seen) xs)
        → IsDistinct (elim b [ true ↦ unique_from seen xs | false ↦ x ∷ unique_from (x ∷ seen) xs ])
    cases true old new = old
    cases false old new = (unique_from-fresh (x ∷ seen) xs x (ground arith), new)

-- The share of this tick: what the live workers, this one included, leave for each.
abbrev pub share_of : Answers → List Worker → LeaseManager → ℕ
share_of a ws m =
    fair_share m.opts.partitions (max (count_live_workers m.opts.pool a.now m.opts.ttl ws) 1)

abbrev all_answered : Answers → Bool
all_answered a = not (a.heartbeat_fails || a.count_fails || a.release_fails || a.claim_fails)

length-keys : (ls : Leases) → length (keys ls) ≡ length ls
length-keys [] = refl
length-keys (l ∷ ls) = ap suc (length-keys ls)

length-claim :
    (partitions : ℕ) (pool me : String) (now ttl limit : ℕ) (ls : Leases)
    → length (claim_partitions partitions pool me now ttl limit ls).1 ≤ limit
unfolding claim_partitions claim_rows
length-claim partitions pool me now ttl limit ls = ground (
  arith,
  length-keys (claim_rows pool me now ttl limit (ensure_rows partitions pool ls)),
  length-take limit (
      sort_by (lease_before me)
        (keep (claimable pool me now ttl) (ensure_rows partitions pool ls))),
)

balance_bounded :
    (a : Answers) (share : ℕ) (owned : List ℕ) (s : Tick)
    → a.release_fails ≡ false
    → a.claim_fails ≡ false
    → length s.manager.owned ≤ length owned
    → length (balance a share owned s).manager.owned ≤ share
unfolding balance
balance_bounded a share owned s r c h =
    let o = s.manager.opts in
    ground (
      arith,
      length-take share owned,
      length-unique_from [] (take share owned),
      length-claim o.partitions o.pool o.worker_id a.now o.ttl share s.leases,
      length-unique_from []
          (claim_partitions o.partitions o.pool o.worker_id a.now o.ttl share s.leases).1,
    )

counted_bounded :
    (a : Answers) (ws : List Worker) (owned : List ℕ) (s : Tick)
    → all_answered a ≡ true
    → length s.manager.owned ≤ length owned
    → length (counted a ws owned s).manager.owned ≤ share_of a ws s.manager
unfolding counted
counted_bounded a ws owned s ok h =
    ground (arith, balance_bounded a (share_of a ws s.manager) owned s)

-- A tick whose calls all succeed leaves the worker with at most its fair share of the partitions,
-- however many it held, lost or could claim.
pub rebalance_bounded :
    (a : Answers) (ws : List Worker) (s : Tick)
    → all_answered a ≡ true
    → length (rebalance a ws s).manager.owned ≤ share_of a ws s.manager
unfolding rebalance store
rebalance_bounded a ws s ok =
    let m = s.manager in
    let beat = heartbeat_partitions m.opts.pool m.opts.worker_id a.now m.owned s.leases in
    ground (
      arith,
      counted_bounded a ws m.owned s,
      counted_bounded a ws beat.1 (record { manager = store beat.1 m; leases = beat.0 }),
      length-unique_from [] beat.1,
    )

-- ===== src/Dispatch/Lease.antt =====
-- internal/application/dispatch/lease_manager.go and partitions.go: this worker's share of the
-- queue's partitions. Each call of the repository runs on the tables of Store.Leases at its own time
-- `now`, or fails, as `Answers` says. Logging and the gauge are left out.
pub mod Share
mod Examples
use huxio.Prelude.{
  ℕ, zero, suc, ◌+◌, ◌-◌, ◌*◌, ◌/◌, max, Bool, true, false, ◌||◌, Option, none, some, List, [], ◌∷◌,
  ◌++◌, String, ltb, leb, ◌==◌, if◌then◌else◌, contains, take, drop, length, ℤ, positive_or,
  pos_part,
}
use huxio.Domain.Task.{queue_partitions}
use huxio.Dispatch.Breaker.{second}
use huxio.Store.Leases.{
  Leases, Worker, claim_partitions, heartbeat_partitions, release_partitions, count_live_workers,
}

pub record LeaseOptions : Type 0 where
  pub worker_id : String
  pub pool : String
  pub partitions : ℕ
  pub ttl : ℕ
  pub heartbeat : ℕ

pub record LeaseManager : Type 0 where
  pub opts : LeaseOptions
  pub owned : List ℕ

-- `utils.Unique`: the first of each value, in order. `seen` is the set of the source.
unique_from : List ℕ → List ℕ → List ℕ
unique_from seen [] = []
unique_from seen (x ∷ xs) = elim (contains seen x) [
  | true ↦ unique_from seen xs
  | false ↦ x ∷ unique_from (x ∷ seen) xs
]

unfoldable pub unique : List ℕ → List ℕ
unfolding unique_from
unique xs = unique_from [] xs

-- `NewLeaseManager`; a worker id is required.
unfoldable pub new_lease_manager : String → String → ℤ → ℤ → ℤ → LeaseManager
new_lease_manager worker_id pool partitions heartbeat ttl =
    let beat = positive_or heartbeat (5 * second) in
    record {
      opts = record {
        worker_id = worker_id;
        pool = pool;
        partitions = positive_or partitions queue_partitions;
        ttl = if leb (pos_part ttl) beat then 3 * beat else pos_part ttl;
        heartbeat = beat;
      };
      owned = [];
    }

unfoldable pub store : List ℕ → LeaseManager → LeaseManager
unfolding unique
store partitions m = record m { owned = unique partitions }

unfoldable pub fair_share : ℕ → ℕ → ℕ
fair_share partitions workers =
    if workers == 0 then partitions else (partitions + workers - 1) / workers

-- When the calls of one tick are made, and whether each of them fails.
pub record Answers : Type 0 where
  pub now : ℕ
  pub heartbeat_fails : Bool
  pub count_fails : Bool
  pub release_fails : Bool
  pub claim_fails : Bool

pub record Tick : Type 0 where
  pub manager : LeaseManager
  pub leases : Leases

-- The `switch` over the share. `owned` is what the heartbeat kept.
balance : Answers → ℕ → List ℕ → Tick → Tick
unfolding store
balance a share owned s =
    let o = s.manager.opts in
    let released : Tick = record {
      manager = store (take share owned) s.manager;
      leases = release_partitions o.pool o.worker_id (drop share owned) s.leases;
    } in
    let claim = claim_partitions o.partitions o.pool o.worker_id a.now o.ttl share s.leases in
    let claimed : Tick = record { manager = store claim.1 s.manager; leases = claim.0 } in
    if ltb share (length owned)
    then if a.release_fails then s else released
    else if ltb (length owned) share
    then if a.claim_fails then s else claimed
    else s

counted : Answers → List Worker → List ℕ → Tick → Tick
counted a ws owned s =
    let o = s.manager.opts in
    let workers = max (count_live_workers o.pool a.now o.ttl ws) 1 in
    if a.count_fails then s else balance a (fair_share o.partitions workers) owned s

pub rebalance : Answers → List Worker → Tick → Tick
rebalance a ws s =
    let m = s.manager in
    let beat = heartbeat_partitions m.opts.pool m.opts.worker_id a.now m.owned s.leases in
    if length m.owned == 0
    then counted a ws m.owned s
    else if a.heartbeat_fails
    then s
    else counted a ws beat.1 (record { manager = store beat.1 m; leases = beat.0 })

-- `release`, on shutdown: an empty list gives up every lease of the worker in the pool.
unfoldable pub release : Bool → Tick → Tick
unfolding store
release fails s =
    let o = s.manager.opts in
    let given = if fails then s.leases else release_partitions o.pool o.worker_id [] s.leases in
    record { manager = store [] s.manager; leases = given }

-- `NewStaticPartitions`: every partition, for a pool with one worker.
static_from : ℕ → ℕ → List ℕ
static_from i zero = []
static_from i (suc n) = i ∷ static_from (i + 1) n

unfoldable pub static_partitions : List ℕ
unfolding static_from
static_partitions = static_from 0 queue_partitions

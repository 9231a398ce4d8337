-- ===== src/Store/Leases.antt =====
-- internal/adapters/outbound/persistence/postgres/lease_repo.go: partition leases, the worker
-- registry and the named leases, as tables. `now` is the database's now(). A statement that fails
-- changes nothing.
pub mod Claims
pub mod Exclusive
pub mod Named
mod Examples
use huxio.Prelude.{
  ℕ, zero, suc, ◌+◌, Bool, true, false, not, ◌&&◌, ◌||◌, Option, none, some, List, [], ◌∷◌, ◌++◌,
  map, String, str_eq, ltb, leb, ◌==◌, if◌then◌else◌, is_set, contains, keep, take, length, sort_by,
  any, text_mem,
}

pub record PartitionLease : Type 0 where
  pub partition_key : ℕ
  pub pool : String
  pub owner_id : Option String
  pub heartbeat_at : Option ℕ
  pub deleted_at : Option ℕ

abbrev pub Leases : Type 0
Leases = List PartitionLease

-- `PartitionLease.Expired`
unfoldable pub lease_expired : PartitionLease → ℕ → ℕ → Bool
lease_expired l now ttl = elim l.owner_id [
  | none ↦ true
  | some owner ↦
      str_eq owner "" || elim l.heartbeat_at [ none ↦ true | some at ↦ ltb (at + ttl) now ]
]

-- `owner_id = $2`, where a NULL is not true
abbrev pub owned_by : String → PartitionLease → Bool
owned_by me l = elim l.owner_id [ none ↦ false | some owner ↦ str_eq owner me ]

abbrev pub is_free : PartitionLease → Bool
is_free l = not (is_set l.owner_id)

-- The lease's heartbeat is NULL or older than the ttl.
abbrev pub stale : ℕ → ℕ → PartitionLease → Bool
stale now ttl l = elim l.heartbeat_at [ none ↦ true | some at ↦ ltb (at + ttl) now ]

unfoldable pub claimable : String → String → ℕ → ℕ → PartitionLease → Bool
claimable pool me now ttl l =
    str_eq l.pool pool
    && not (is_set l.deleted_at)
    && (owned_by me l || is_free l || owned_by "" l || stale now ttl l)

-- ORDER BY (owner_id = $2) DESC, partition_key. A comparison with a NULL owner is NULL, and
-- Postgres puts NULLs first in a descending order: rank 0 is first.
abbrev pub rank : String → PartitionLease → ℕ
rank me l = if is_free l then 0 else if owned_by me l then 1 else 2

unfoldable pub lease_before : String → PartitionLease → PartitionLease → Bool
lease_before me a b =
    ltb (rank me a) (rank me b) || (rank me a == rank me b && leb a.partition_key b.partition_key)

abbrev pub keys : Leases → List ℕ
keys [] = []
keys (l ∷ ls) = l.partition_key ∷ keys ls

unfoldable pub update_leases :
    (PartitionLease → Bool) → (PartitionLease → PartitionLease) → Leases → Leases
update_leases p f [] = []
update_leases p f (l ∷ ls) = (if p l then f l else l) ∷ update_leases p f ls

-- `ensurePartitionRows`: a row for each key below the partition count, where there is none.
abbrev pub has_row : String → ℕ → Leases → Bool
has_row pool key ls = any (λ l. l.partition_key == key && str_eq l.pool pool) ls

abbrev pub free_row : String → ℕ → PartitionLease
free_row pool key = record {
  partition_key = key;
  pool = pool;
  owner_id = none;
  heartbeat_at = none;
  deleted_at = none;
}

unfoldable pub ensure_rows : ℕ → String → Leases → Leases
ensure_rows zero pool ls = ls
ensure_rows (suc n) pool ls =
    let rest = ensure_rows n pool ls in
    if has_row pool n ls then rest else rest ++ free_row pool n ∷ []

unfoldable pub claim_rows : String → String → ℕ → ℕ → ℕ → Leases → Leases
claim_rows pool me now ttl limit ls =
    take limit (sort_by (lease_before me) (keep (claimable pool me now ttl) ls))

abbrev pub taken : String → ℕ → PartitionLease → PartitionLease
taken me now l = record l { owner_id = some me; heartbeat_at = some now }

-- In the pool, with one of the keys.
abbrev pub among : String → List ℕ → PartitionLease → Bool
among pool given l = str_eq l.pool pool && contains given l.partition_key

unfoldable pub claim_partitions : ℕ → String → String → ℕ → ℕ → ℕ → Leases → Leases × List ℕ
claim_partitions partitions pool me now ttl limit ls =
    let full = ensure_rows partitions pool ls in
    let picked = keys (claim_rows pool me now ttl limit full) in
    if limit == 0 then (ls, []) else (update_leases (among pool picked) (taken me now) full, picked)

-- The SET and the RETURNING of the heartbeat.
abbrev pub renews : String → String → List ℕ → PartitionLease → Bool
renews pool me given l = among pool given l && owned_by me l

unfoldable pub heartbeat_partitions : String → String → ℕ → List ℕ → Leases → Leases × List ℕ
heartbeat_partitions pool me now given ls = (
  update_leases (renews pool me given) (λ l. record l { heartbeat_at = some now }) ls,
  keys (keep (renews pool me given) ls),
)

-- An empty list is passed on as NULL, and releases every lease of the worker in the pool.
abbrev pub gives_up : String → String → List ℕ → PartitionLease → Bool
gives_up pool me given l =
    str_eq l.pool pool && owned_by me l && ((length given == 0) || contains given l.partition_key)

unfoldable pub release_partitions : String → String → List ℕ → Leases → Leases
release_partitions pool me given ls =
    update_leases (gives_up pool me given) (λ l. record l { owner_id = none; heartbeat_at = none })
      ls

pub record Worker : Type 0 where
  pub id : String
  pub pools : List String
  pub heartbeat_at : ℕ

-- The upsert of `RegisterWorker`
unfoldable pub register_worker : ℕ → String → List String → List Worker → List Worker
register_worker now id pools [] = record { id = id; pools = pools; heartbeat_at = now } ∷ []
register_worker now id pools (w ∷ ws) =
    let rest = register_worker now id pools ws in
    if str_eq w.id id then record w { pools = pools; heartbeat_at = now } ∷ ws else w ∷ rest

unfoldable pub deregister_worker : String → List Worker → List Worker
deregister_worker id ws = keep (λ w. not (str_eq w.id id)) ws

unfoldable pub count_live_workers : String → ℕ → ℕ → List Worker → ℕ
count_live_workers pool now ttl ws =
    length (keep (λ w. text_mem pool w.pools && ltb now (w.heartbeat_at + ttl)) ws)

unfoldable pub reap_dead_workers : ℕ → ℕ → List Worker → List Worker
reap_dead_workers now ttl ws = keep (λ w. not (ltb (w.heartbeat_at + ttl) now)) ws

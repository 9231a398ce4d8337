-- ===== src/Maintenance.antt =====
-- internal/application/maintenance/loop.go: the periodic housekeeping, under the named lease. The
-- metrics and the process-local hook change no table. Each event of `Run` is one step here.
pub mod Partitions
pub mod Leader
mod Examples
use huxio.Prelude.{
  ℕ, ◌*◌, Bool, true, false, not, ◌&&◌, Option, none, some, List, [], ◌∷◌, String, str_eq,
  if◌then◌else◌, ℤ, pos, positive_or,
}
use huxio.Prelude.Calendar.{Date, sub_days}
use huxio.Dispatch.Breaker.{second}
use huxio.Store.Queue.{Rows, rescue_stuck}
use huxio.Store.Leases.{Worker, reap_dead_workers}
use huxio.Store.Leases.Named.{NamedLease, acquire_named_lease, release_named_lease}
use huxio.Store.Idempotency.{Keys, purge_expired}
use huxio.Store.Partitions.{Catalog, ensure_daily_partitions, drop_partitions_before}

abbrev pub lease_name : String
lease_name = "maintenance"

pub record Options : Type 0 where
  pub owner_id : String
  pub rescue_interval : ℕ
  pub partition_interval : ℕ
  pub stats_interval : ℕ
  pub lease_ttl : ℕ
  pub partitions_ahead : ℕ
  pub message_retention_days : ℕ
  pub attempt_retention_days : ℕ

pub record RawOptions : Type 0 where
  pub owner_id : String
  pub rescue_interval : ℤ
  pub partition_interval : ℤ
  pub stats_interval : ℤ
  pub lease_ttl : ℤ
  pub partitions_ahead : ℤ
  pub message_retention_days : ℤ
  pub attempt_retention_days : ℤ

pub record Loop : Type 0 where
  pub opts : Options
  pub leader : Bool

-- `New`, with its dependencies there; an owner id is required.
unfoldable pub new_loop : RawOptions → Option Loop
new_loop raw =
    if str_eq raw.owner_id ""
    then none
    else some (record {
      opts = record {
        owner_id = raw.owner_id;
        rescue_interval = positive_or raw.rescue_interval (30 * second);
        partition_interval = positive_or raw.partition_interval (3600 * second);
        stats_interval = positive_or raw.stats_interval (15 * second);
        lease_ttl = positive_or raw.lease_ttl (30 * second);
        partitions_ahead = positive_or raw.partitions_ahead 7;
        message_retention_days = positive_or raw.message_retention_days 90;
        attempt_retention_days = positive_or raw.attempt_retention_days 90;
      };
      leader = false;
    })

-- The tables that the loops of a cluster share.
pub record Cluster : Type 0 where
  pub leases : List NamedLease
  pub queue : Rows
  pub workers : List Worker
  pub keys : Keys
  pub catalog : Catalog

-- Which calls of a step work. An idempotency repository may be missing.
pub record Faults : Type 0 where
  pub acquires : Bool
  pub releases : Bool
  pub rescues : Bool
  pub reaps : Bool
  pub purges : Bool
  pub creates : String → ℕ → Bool
  pub lists : String → Bool
  pub drops : List ℕ → Bool

-- `acquireLeadership`
unfoldable pub acquire_leadership : Faults → ℕ → Loop → Cluster → Loop × Cluster × Bool
acquire_leadership f now l c =
    let (leases, acquired) =
      acquire_named_lease now lease_name l.opts.owner_id l.opts.lease_ttl c.leases in
    if not f.acquires
    then (record l { leader = false }, c, false)
    else (record l { leader = acquired }, record c { leases = leases }, acquired)

-- `releaseLeadership`
unfoldable pub release_leadership : Faults → Loop → Cluster → Loop × Cluster
release_leadership f l c = if not l.leader then (l, c) else (
  record l { leader = false },
  if f.releases
      then record c { leases = release_named_lease lease_name l.opts.owner_id c.leases }
      else c,
)

-- `rescueStuckTasks`, `reapDeadWorkers` and `purgeIdempotencyKeys`: a call that fails changes nothing.
unfoldable pub keep_house : Faults → ℕ → Loop → Cluster → Cluster
keep_house f now l c = record c {
  queue = if f.rescues then rescue_stuck now c.queue else c.queue;
  workers = if f.reaps then reap_dead_workers now l.opts.lease_ttl c.workers else c.workers;
  keys = if f.purges then purge_expired now c.keys else c.keys;
}

-- One table of `managePartitions`, on one day: days past the retention are dropped if the days ahead
-- could be created.
unfoldable pub manage_table : Faults → String → ℕ → ℕ → Date → Catalog → Catalog
manage_table f table ahead retention today catalog =
    let (created, fine) =
      ensure_daily_partitions (f.creates table) table (pos ahead) today catalog in
    if fine
    then (drop_partitions_before (f.lists table) f.drops table (sub_days retention today) created).0
    else created

-- `managePartitions`
unfoldable pub manage_partitions : Faults → Options → Date → Catalog → Catalog
unfolding manage_table
manage_partitions f o today catalog =
    manage_table f "delivery_attempt" o.partitions_ahead o.attempt_retention_days today
      (manage_table f "message" o.partitions_ahead o.message_retention_days today catalog)

-- What `Run` waits for, after its first pass, which is a partition tick.
pub data Event : Type 0 where
  rescue_tick partition_tick stats_tick done : Event

-- The work of a tick, for the leader.
work : Faults → ℕ → Date → Event → Loop → Cluster → Cluster
unfolding keep_house manage_partitions
work f now today rescue_tick l c = keep_house f now l c
work f now today partition_tick l c = record c {
  catalog = manage_partitions f l.opts today c.catalog;
}
work f now today _ l c = c

led : Faults → ℕ → Date → Event → Loop × Cluster × Bool → Loop × Cluster
unfolding work
led f now today e (l, c, true) = (l, work f now today e l c)
led f now today e (l, c, false) = (l, c)

-- One turn of the loop of `Run`.
unfoldable pub step : Faults → ℕ → Date → Event → Loop → Cluster → Loop × Cluster
unfolding led
step f now today rescue_tick l c = led f now today rescue_tick (acquire_leadership f now l c)
step f now today partition_tick l c = led f now today partition_tick (acquire_leadership f now l c)
step f now today stats_tick l c = (l, c)
step f now today done l c = release_leadership f l c

-- ===== src/Nodes.antt =====
-- internal/application/nodes/registry.go: a process among its peers, in the table of the workers.
-- `Run` refreshes at its start and at each tick, and deregisters at its end.
use huxio.Prelude.{
  ℕ, ◌+◌, ◌*◌, ◌≤◌, ◌<◌, ◌≡◌, Bool, true, not, Option, none, some, List, [], ◌∷◌, String, str_eq,
  eq_iff, ltb, max, if◌then◌else◌, ℤ, pos, pos_part, positive_or, arith, ltb_ℤ,
}
use huxio.Dispatch.Breaker.{second}
use huxio.Store.Leases.{Worker, register_worker, deregister_worker, count_live_workers}

-- The pseudo-pool of the API nodes.
abbrev pub pool_api : String
pool_api = "api"

pub record Options : Type 0 where
  pub node_id : String
  pub pool : String
  pub heartbeat : ℕ
  pub ttl : ℕ

pub record RawOptions : Type 0 where
  pub node_id : String
  pub pool : String
  pub heartbeat : ℤ
  pub ttl : ℤ

pub record Registry : Type 0 where
  pub opts : Options
  pub count : ℕ

-- A time to live is longer than the heartbeat.
abbrev pub ttl_or : ℤ → ℕ → ℕ
ttl_or ttl heartbeat = if ltb_ℤ (pos heartbeat) ttl then pos_part ttl else 3 * heartbeat

-- `New`, with its repository there.
unfoldable pub new_registry : RawOptions → Option Registry
new_registry raw =
    if str_eq raw.node_id ""
    then none
    else some (record {
      opts = record {
        node_id = raw.node_id;
        pool = if str_eq raw.pool "" then pool_api else raw.pool;
        heartbeat = positive_or raw.heartbeat (5 * second);
        ttl = ttl_or raw.ttl (positive_or raw.heartbeat (5 * second));
      };
      count = 1;
    })

-- `Nodes`
unfoldable pub nodes : Registry → ℕ
nodes r = if ltb 0 r.count then r.count else 1

-- `refresh`, whose two calls may fail, at the times of the calls.
unfoldable pub refresh : Bool → Bool → ℕ → ℕ → Registry → List Worker → Registry × List Worker
refresh registers counts now later r ws =
    let after = register_worker now r.opts.node_id (r.opts.pool ∷ []) ws in
    if not registers
    then (r, ws)
    else if not counts
    then (r, after)
    else (record r { count = max (count_live_workers r.opts.pool later r.opts.ttl after) 1 }, after)

-- `deregister`
unfoldable pub deregister : Bool → Registry → List Worker → List Worker
deregister works r ws = if works then deregister_worker r.opts.node_id ws else ws

-- A process that has registered counts itself within its time to live.
count_live_workers-register_worker :
    (now later ttl : ℕ) (id pool : String) (ws : List Worker)
    → later < now + ttl
    → 1 ≤ count_live_workers pool later ttl (register_worker now id (pool ∷ []) ws)
unfolding count_live_workers register_worker
count_live_workers-register_worker now later ttl id pool [] h = ground (arith, eq_iff pool pool)
count_live_workers-register_worker now later ttl id pool (w ∷ ws) h =
    ground (arith, eq_iff pool pool, count_live_workers-register_worker now later ttl id pool ws)

-- A refresh whose calls work, the second within the time to live of the first, makes the count the
-- number of live nodes in the pool, this one among them.
pub nodes-refresh :
    (now later : ℕ) (r : Registry) (ws : List Worker)
    → later < now + r.opts.ttl
    → let (after, rows) = refresh true true now later r ws in
      (nodes after ≡ count_live_workers r.opts.pool later r.opts.ttl rows) × (1 ≤ nodes after)
unfolding nodes refresh
nodes-refresh now later r ws h =
    let some_live =
      count_live_workers-register_worker now later r.opts.ttl r.opts.node_id r.opts.pool ws h in
    (ground (arith, some_live), ground (arith, some_live))

-- ===== src/Dispatch/Lease/Examples.antt =====
-- A worker that holds more than its share.
use huxio.Prelude.{List, [], ◌∷◌, false}
use huxio.Store.Leases.{Worker}
use huxio.Dispatch.Lease.{LeaseManager, Answers, Tick}

abbrev manager : LeaseManager
manager = record {
  opts = record { worker_id = "me"; pool = "default"; partitions = 4; ttl = 30; heartbeat = 10 };
  owned = 0 ∷ 1 ∷ 2 ∷ [];
}

abbrev workers : List Worker
workers =
    record { id = "me"; pools = "default" ∷ []; heartbeat_at = 90 }
    ∷ record { id = "other"; pools = "default" ∷ []; heartbeat_at = 95 }
    ∷ []

abbrev calm : Answers
calm = record {
  now = 100;
  heartbeat_fails = false;
  count_fails = false;
  release_fails = false;
  claim_fails = false;
}

abbrev before : Tick
before = record { manager = manager; leases = [] }

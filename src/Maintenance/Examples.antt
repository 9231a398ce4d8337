-- ===== src/Maintenance/Examples.antt =====
-- Two loops, and a day's work on the partitions.
use huxio.Prelude.{◌*◌, ◌≡◌, refl, true, List, [], ◌∷◌, String, arith, All, pos}
use huxio.Prelude.Calendar.{Date, IsDate, add_days}
use huxio.Dispatch.Breaker.{second}
use huxio.Store.Leases.Named.{find_lease}
use huxio.Store.Partitions.{
  partition_name, has_relation, ensure_daily_partitions, is_partitioned_table, ensure_days,
}
use huxio.Maintenance.{Options, Cluster, Faults, partition_tick, done, lease_name, manage_table}
use huxio.Maintenance.Partitions.{manage_table-has}
use huxio.Maintenance.Leader.{Turn, IsKept, IsOther, take_turns, leader_alone}

abbrev opts : String → Options
opts owner = record {
  owner_id = owner;
  rescue_interval = 30 * second;
  partition_interval = 3600 * second;
  stats_interval = 15 * second;
  lease_ttl = 30 * second;
  partitions_ahead = 7;
  message_retention_days = 90;
  attempt_retention_days = 90;
}

abbrev fine : Faults
fine = record {
  acquires = true;
  releases = true;
  rescues = true;
  reaps = true;
  purges = true;
  creates = λ table i. true;
  lists = λ table. true;
  drops = λ name. true;
}

abbrev today : Date
today = record { year = 2026; month = 2; day = 27 }

today-IsDate : IsDate today
today-IsDate = record {
  year_in = (omega arith, omega arith);
  month_in = (omega arith, omega arith);
  day_in = (omega arith, omega arith);
}

abbrev led_by_a : Cluster
led_by_a = record {
  leases = record { name = lease_name; owner_id = "a"; heartbeat_at = 100 * second } ∷ [];
  queue = [];
  workers = [];
  keys = [];
  catalog = [];
}

a_leads : IsKept "a" (100 * second) led_by_a led_by_a
unfolding find_lease
a_leads = record {
  lease = record { name = lease_name; owner_id = "a"; heartbeat_at = 100 * second };
  held = refl;
  owned = refl;
  beats = refl;
  queue = refl;
  workers = refl;
  keys = refl;
  catalog = refl;
}

-- The loop of b wakes for its partitions, and is stopped.
abbrev turns : List Turn
turns =
    record {
      faults = fine;
      now = 110 * second;
      today = today;
      event = partition_tick;
      loop = record { opts = opts "b"; leader = true };
    }
    ∷ record {
      faults = fine;
      now = 120 * second;
      today = today;
      event = done;
      loop = record { opts = opts "b"; leader = true };
    }
    ∷ []

turns-IsOther : All (IsOther "a" (100 * second)) turns
turns-IsOther = ((refl, omega arith), ((refl, omega arith), tt))

leader_alone_example : IsKept "a" (100 * second) led_by_a (take_turns turns led_by_a)
leader_alone_example = leader_alone "a" (100 * second) led_by_a turns led_by_a a_leads turns-IsOther

created : (ensure_daily_partitions (fine.creates "message") "message" (pos 2) today []).1 ≡ true
unfolding ensure_daily_partitions is_partitioned_table ensure_days
created = refl

manage_table-has_example :
    has_relation
      (partition_name "message" (add_days 2 today))
      (manage_table fine "message" 2 90 today [])
    ≡ true
manage_table-has_example =
    manage_table-has fine "message" 2 90 2 today [] today-IsDate (omega arith) (omega arith) created
      (omega arith)

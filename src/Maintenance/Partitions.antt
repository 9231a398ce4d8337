-- ===== src/Maintenance/Partitions.antt =====
-- What the maintenance does to the partitions of a table.
use huxio.Prelude.{ℕ, ◌+◌, ◌≤◌, ◌<◌, ◌≡◌, ◌∙◌, true, false, String, arith, pos}
use huxio.Prelude.Calendar.{Date, IsDate, add_days, sub_days, sub_days-IsDate, add_days-IsDate}
use huxio.Store.Partitions.{Catalog, partition_name, has_relation, ensure_daily_partitions}
use huxio.Store.Partitions.Kept.{partition_day-partition_name, ensure_daily_partitions-has}
use huxio.Store.Partitions.Dropped.{is_expired, drop_partitions_before-keeps}
use huxio.Maintenance.{Faults, manage_table}

young :
    (table : String) (today : Date) (retention j : ℕ)
    → IsDate today
    → retention < today.year
    → today.year + j < 9999
    → is_expired table (sub_days retention today) (partition_name table (add_days j today)) ≡ false
young table today retention j v back ahead =
    let (valid, _, later) = add_days-IsDate j today v ahead in
    let (_, _, earlier) = sub_days-IsDate retention today v back in
    rw (partition_day-partition_name table (add_days j today) valid, is_expired) (ground arith)

-- If the days ahead could be created, each of them, today included, has its partition afterwards,
-- whichever of the drops fail. The retention is a number of days below that of the current year, and
-- the days are of years below 9999.
pub manage_table-has :
    (f : Faults) (table : String) (ahead retention j : ℕ) (today : Date) (catalog : Catalog)
    → IsDate today
    → retention < today.year
    → today.year + j < 9999
    → (ensure_daily_partitions (f.creates table) table (pos ahead) today catalog).1 ≡ true
    → j ≤ ahead
    → has_relation
        (partition_name table (add_days j today))
        (manage_table f table ahead retention today catalog)
      ≡ true
unfolding manage_table
manage_table-has f table ahead retention j today catalog v back limit fine le = rw fine (
    drop_partitions_before-keeps (f.lists table) f.drops table (sub_days retention today)
      (ensure_daily_partitions (f.creates table) table (pos ahead) today catalog).0
      (partition_name table (add_days j today)) (young table today retention j v back limit)
    ∙ ensure_daily_partitions-has (f.creates table) table (pos ahead) today catalog j fine le)

-- ===== src/Store/Partitions/Examples.antt =====
-- The partition of a leap day.
use huxio.Prelude.{◌≡◌, refl, some, true, arith, bytes, same_bytes}
use huxio.Prelude.Calendar.{Date, IsDate, format_day}
use huxio.Store.Partitions.{partition_name, partition_day}
use huxio.Store.Partitions.Kept.{partition_day-partition_name}

abbrev leap_day : Date
leap_day = record { year = 2028; month = 2; day = 29 }

leap_day-IsDate : IsDate leap_day
leap_day-IsDate = record {
  year_in = (omega arith, omega arith);
  month_in = (omega arith, omega arith);
  day_in = (omega arith, omega arith);
}

leap_day_name : same_bytes (partition_name "message" leap_day) (bytes "message_20280229") ≡ true
unfolding partition_name format_day
leap_day_name = refl

partition_day-partition_name_example :
    partition_day "message" (partition_name "message" leap_day) ≡ some leap_day
partition_day-partition_name_example =
    partition_day-partition_name "message" leap_day leap_day-IsDate

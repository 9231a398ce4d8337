-- ===== src/Store/Partitions.antt =====
-- internal/adapters/outbound/persistence/postgres/maintenance_repo.go: the daily partitions of the
-- message and attempt tables. A catalog lists the partitions with the tables that they belong to.
pub mod Kept
pub mod Dropped
mod Examples
use huxio.Prelude.{
  ℕ, zero, suc, ◌+◌, Bool, true, false, not, ◌&&◌, ◌||◌, Option, none, some, List, [], ◌∷◌, ◌++◌,
  String, str_eq, ◌==◌, if◌then◌else◌, any, keep, bytes, same_bytes, ℤ, pos_part,
}
use huxio.Prelude.Calendar.{Date, before_day, add_days, format_day, parse_day}

pub record Partition : Type 0 where
  pub parent : String
  pub name : List ℕ

abbrev pub Catalog : Type 0
Catalog = List Partition

pub record PartitionSpec : Type 0 where
  pub name : List ℕ
  pub day : Date

-- `checkPartitionedTable`
unfoldable pub is_partitioned_table : String → Bool
is_partitioned_table table = str_eq table "message" || str_eq table "delivery_attempt"

abbrev pub prefix_of : String → List ℕ
prefix_of table = bytes table ++ b'_' ∷ []

-- `partitionName`
unfoldable pub partition_name : String → Date → List ℕ
partition_name table day = prefix_of table ++ format_day day

unfoldable pub strip : List ℕ → List ℕ → Option (List ℕ)
strip [] name = some name
strip (p ∷ ps) [] = none
strip (p ∷ ps) (c ∷ name) = let rest = strip ps name in if p == c then rest else none

-- `partitionDay`
unfoldable pub partition_day : String → List ℕ → Option Date
unfolding strip
partition_day table name = elim (strip (prefix_of table) name) [
  | none ↦ none
  | some digits ↦ parse_day digits
]

-- `quoteIdent`, between its quotes and with them
escape : List ℕ → List ℕ
escape [] = []
escape (c ∷ cs) = if c == b'"' then c ∷ c ∷ escape cs else c ∷ escape cs

unfoldable pub quote_ident : List ℕ → List ℕ
unfolding escape
quote_ident name = b'"' ∷ escape name ++ b'"' ∷ []

abbrev pub has_relation : List ℕ → Catalog → Bool
has_relation name rows = any (λ (p : Partition). same_bytes p.name name) rows

-- CREATE TABLE IF NOT EXISTS … PARTITION OF
unfoldable pub create_partition : String → List ℕ → Catalog → Catalog
create_partition table name rows =
    if has_relation name rows then rows else rows ++ record { parent = table; name = name } ∷ []

-- The loop of `EnsureDailyPartitions`, for the days that are left; it stops at the first failure.
unfoldable pub ensure_days : (ℕ → Bool) → String → Date → ℕ → ℕ → Catalog → Catalog × Bool
unfolding create_partition
ensure_days works table today zero i rows = (rows, true)
ensure_days works table today (suc left) i rows = elim (works i) [
  | false ↦ (rows, false)
  | true ↦
      ensure_days works table today left (i + 1)
        (create_partition table (partition_name table (add_days i today)) rows)
]

-- `EnsureDailyPartitions`, and whether it worked.
unfoldable pub ensure_daily_partitions : (ℕ → Bool) → String → ℤ → Date → Catalog → Catalog × Bool
ensure_daily_partitions works table ahead today rows =
    if not (is_partitioned_table table)
    then (rows, false)
    else ensure_days works table today (suc (pos_part ahead)) 0 rows

-- `ListPartitions`: names that are not of the table's days are left out.
unfoldable pub list_partitions : String → Catalog → List PartitionSpec
list_partitions table [] = []
list_partitions table (p ∷ rows) =
    let rest = list_partitions table rows in
    elim (partition_day table p.name) [
      | none ↦ rest
      | some day ↦
          if str_eq p.parent table then record { name = p.name; day = day } ∷ rest else rest
    ]

-- DROP TABLE IF EXISTS
unfoldable pub drop_relation : List ℕ → Catalog → Catalog
drop_relation name rows = keep (λ (p : Partition). not (same_bytes p.name name)) rows

-- The loop of `DropPartitionsBefore`; it stops at the first failure.
unfoldable pub drop_specs : (List ℕ → Bool) → Date → List PartitionSpec → Catalog → Catalog × Bool
drop_specs works cutoff [] rows = (rows, true)
drop_specs works cutoff (s ∷ specs) rows = elim (before_day s.day cutoff) [
  | false ↦ drop_specs works cutoff specs rows
  | true ↦ elim (works s.name) [
    | false ↦ (rows, false)
    | true ↦ drop_specs works cutoff specs (drop_relation s.name rows)
  ]
]

-- `DropPartitionsBefore`
unfoldable pub drop_partitions_before :
    Bool → (List ℕ → Bool) → String → Date → Catalog → Catalog × Bool
unfolding drop_specs list_partitions
drop_partitions_before lists works table cutoff rows =
    if not (is_partitioned_table table) || not lists
    then (rows, false)
    else drop_specs works cutoff (list_partitions table rows) rows

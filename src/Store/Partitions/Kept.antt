-- ===== src/Store/Partitions/Kept.antt =====
-- The names of the partitions, and which of them the maintenance creates.
use mathlib.Core.Path.{subst}
use huxio.Prelude.{
  ℕ, zero, suc, ◌+◌, ◌≤◌, ◌<◌, ◌≡◌, refl, sym, ◌∙◌, ap, Bool, true, false, not, ◌||◌, some, List,
  [], ◌∷◌, ◌++◌, String, ◌==◌, if◌then◌else◌, same_bytes, same_bytes_refl, ℤ, pos_part, arith,
  Bool-cases, inl, inr,
}
use huxio.Prelude.Calendar.{Date, IsDate, add_days, format_day, parse_day-format_day}
use huxio.Store.Partitions.{
  Partition, Catalog, prefix_of, partition_name, strip, partition_day, has_relation,
  create_partition, ensure_days, ensure_daily_partitions, is_partitioned_table,
}

strip-append : (ps name : List ℕ) → strip ps (ps ++ name) ≡ some name
unfolding strip
strip-append [] name = refl
strip-append (p ∷ ps) name = ground (arith, strip-append ps name)

-- The day that is read from the name of a partition is the day that the name was made for, a date of
-- the calendar in a year of at most four digits.
pub partition_day-partition_name :
    (table : String) (d : Date) → IsDate d → partition_day table (partition_name table d) ≡ some d
unfolding partition_day partition_name
partition_day-partition_name table d v =
    rw (strip-append (prefix_of table) (format_day d), partition_day) (parse_day-format_day d v)

has_relation-append :
    (name : List ℕ) (rows : Catalog) (p : Partition)
    → has_relation name (rows ++ p ∷ []) ≡ (has_relation name rows || same_bytes p.name name)
has_relation-append name [] p = ground arith
has_relation-append name (r ∷ rows) p = ground (arith, has_relation-append name rows p)

create_partition-keeps :
    (table : String) (name other : List ℕ) (rows : Catalog)
    → has_relation other rows ≡ true
    → has_relation other (create_partition table name rows) ≡ true
unfolding create_partition
create_partition-keeps table name other rows h =
    ground (arith, has_relation-append other rows (record { parent = table; name = name }))

create_partition-has :
    (table : String) (name : List ℕ) (rows : Catalog)
    → has_relation name (create_partition table name rows) ≡ true
unfolding create_partition
create_partition-has table name rows = ground (
  arith,
  has_relation-append name rows (record { parent = table; name = name }),
  same_bytes_refl name,
)

module _ (works : ℕ → Bool) (table : String) (today : Date) where
  pub ensure_days-keeps :
      (left i : ℕ) (rows : Catalog) (other : List ℕ)
      → has_relation other rows ≡ true
      → has_relation other (ensure_days works table today left i rows).0 ≡ true
  unfolding ensure_days
  ensure_days-keeps zero i rows other h = h
  ensure_days-keeps (suc left) i rows other h = ground (
    arith,
    ensure_days-keeps left (i + 1)
        (create_partition table (partition_name table (add_days i today)) rows) other,
    create_partition-keeps table (partition_name table (add_days i today)) other rows,
  )

  abbrev created : ℕ → Catalog → Catalog
  created i rows = create_partition table (partition_name table (add_days i today)) rows

  ensure_days-stop :
      (left i : ℕ) (rows : Catalog)
      → works i ≡ false
      → ensure_days works table today (suc left) i rows ≡ (rows, false)
  unfolding ensure_days
  ensure_days-stop left i rows e = rw (e, ensure_days) refl

  ensure_days-step :
      (left i : ℕ) (rows : Catalog)
      → works i ≡ true
      → ensure_days works table today (suc left) i rows
        ≡ ensure_days works table today left (i + 1) (created i rows)
  unfolding ensure_days
  ensure_days-step left i rows e = rw (e, ensure_days) refl

  ensure_days-has :
      (left i j : ℕ) (rows : Catalog)
      → (ensure_days works table today left i rows).1 ≡ true
      → i ≤ j
      → j < i + left
      → has_relation
          (partition_name table (add_days j today))
          (ensure_days works table today left i rows).0
        ≡ true
  ensure_days-has zero i j rows done low high = absurd (omega arith)
  ensure_days-has (suc left) i j rows done low high = elim (Bool-cases (works i)) [
    | inr broken ↦
        absurd (cc (ap (λ (r : Catalog × Bool). r.1) (ensure_days-stop left i rows broken)))
    | inl fine ↦
        let later = ensure_days works table today left (i + 1) (created i rows) in
        let step = ensure_days-step left i rows fine in
        let done' : later.1 ≡ true = sym (ap (λ (r : Catalog × Bool). r.1) step) ∙ done in
        ap (λ (r : Catalog × Bool). has_relation (partition_name table (add_days j today)) r.0) step
        ∙ (elim (Bool-cases (i == j)) [
          | inl same ↦
              let e : i ≡ j = ground arith in
              subst (λ k. has_relation (partition_name table (add_days k today)) later.0 ≡ true) e
                (ensure_days-keeps left (i + 1) (created i rows)
                  (partition_name table (add_days i today))
                  (create_partition-has table (partition_name table (add_days i today)) rows))
          | inr other ↦
              ensure_days-has left (i + 1) j (created i rows) done' (ground arith) (ground arith)
        ])
  ]

-- After a creation that worked, today and the days ahead have their partitions.
pub ensure_daily_partitions-has :
    (works : ℕ → Bool) (table : String) (ahead : ℤ) (today : Date) (rows : Catalog) (j : ℕ)
    → (ensure_daily_partitions works table ahead today rows).1 ≡ true
    → j ≤ pos_part ahead
    → has_relation
        (partition_name table (add_days j today))
        (ensure_daily_partitions works table ahead today rows).0
      ≡ true
unfolding ensure_daily_partitions
ensure_daily_partitions-has works table ahead today rows j done le =
    cases (not (is_partitioned_table table)) done
  where
    made : Catalog × Bool
    made = ensure_days works table today (suc (pos_part ahead)) 0 rows

    cases :
        (b : Bool)
        → let after : Catalog × Bool = if b then (rows, false) else made in
          after.1 ≡ true → has_relation (partition_name table (add_days j today)) after.0 ≡ true
    cases true fine = absurd (cc)
    cases false fine =
        ensure_days-has works table today (suc (pos_part ahead)) 0 j rows fine (omega arith)
          (omega arith)

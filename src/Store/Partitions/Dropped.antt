-- ===== src/Store/Partitions/Dropped.antt =====
-- Which partitions the maintenance drops.
use mathlib.Core.Path.{subst}
use huxio.Prelude.{
  ℕ, ◌≡◌, ◌⊎◌, refl, ◌∙◌, Bool, true, false, not, ◌&&◌, ◌||◌, Option, none, some, List, [], ◌∷◌,
  String, str_eq, if◌then◌else◌, same_bytes, same_bytes_refl, same_bytes-eq, arith, Bool-cases, inl,
  inr, All,
}
use huxio.Prelude.Calendar.{Date, before_day}
use huxio.Store.Partitions.{
  Catalog, PartitionSpec, partition_day, has_relation, is_partitioned_table, list_partitions,
  drop_relation, drop_specs, drop_partitions_before,
}

-- The name of a day before the cutoff
abbrev pub is_expired : String → Date → List ℕ → Bool
is_expired table cutoff name = elim (partition_day table name) [
  | none ↦ false
  | some day ↦ before_day day cutoff
]

has_relation-drop :
    (name other : List ℕ) (rows : Catalog)
    → has_relation other (drop_relation name rows)
      ≡ (has_relation other rows && not (same_bytes name other))
unfolding drop_relation
has_relation-drop name other [] = refl
has_relation-drop name other (p ∷ rows) =
    ground (
      arith,
      has_relation-drop name other rows,
      same_bytes-eq p.name name,
      same_bytes-eq name other,
    )

list_partitions-Named :
    (table : String) (rows : Catalog)
    → All
        (λ (s : PartitionSpec). partition_day table s.name ≡ some s.day)
        (list_partitions table rows)
unfolding list_partitions
list_partitions-Named table [] = tt
list_partitions-Named table (p ∷ rows) =
    cases (partition_day table p.name) refl (str_eq p.parent table)
      (list_partitions-Named table rows)
  where
    Named : List PartitionSpec → Type 0
    Named = All (λ (s : PartitionSpec). partition_day table s.name ≡ some s.day)

    cases :
        (o : Option Date)
        → partition_day table p.name ≡ o
        → (b : Bool) → Named (list_partitions table rows)
        → Named (elim o [
          | none ↦ list_partitions table rows
          | some day ↦
              if b
              then record { name = p.name; day = day } ∷ list_partitions table rows
              else list_partitions table rows
        ])
    cases none e b rest = rest
    cases (some day) e true rest = (e, rest)
    cases (some day) e false rest = rest

-- A name of another form, or of a day that is not before the cutoff, is as it was.
drop_specs-keeps :
    (works : List ℕ → Bool) (table : String) (cutoff : Date) (specs : List PartitionSpec)
    (rows : Catalog) (other : List ℕ)
    → All (λ (s : PartitionSpec). partition_day table s.name ≡ some s.day) specs
    → is_expired table cutoff other ≡ false
    → has_relation other (drop_specs works cutoff specs rows).0 ≡ has_relation other rows
unfolding drop_specs
drop_specs-keeps works table cutoff [] rows other named young = refl
drop_specs-keeps works table cutoff (s ∷ specs) rows other named young =
    cases (before_day s.day cutoff) refl (works s.name)
      (λ r. drop_specs-keeps works table cutoff specs r other named.1 young)
  where
    Later : Type 0
    Later =
        (r : Catalog)
        → has_relation other (drop_specs works cutoff specs r).0 ≡ has_relation other r

    apart : before_day s.day cutoff ≡ true → same_bytes s.name other ≡ false
    apart old = elim (Bool-cases (same_bytes s.name other)) [
      | inr differs ↦ differs
      | inl same ↦
          let e : s.name ≡ other = same_bytes-eq s.name other same in
          let day : partition_day table other ≡ some s.day =
            subst (λ n. partition_day table n ≡ some s.day) e named.0 in
          absurd (ground (arith, day))
    ]

    cases :
        (old : Bool)
        → before_day s.day cutoff ≡ old
        → (b : Bool) → Later
        → has_relation other
            (elim old as (λ x. Catalog × Bool) [
              | false ↦ drop_specs works cutoff specs rows
              | true ↦ elim b [
                | false ↦ (rows, false)
                | true ↦ drop_specs works cutoff specs (drop_relation s.name rows)
              ]
            ]).0
          ≡ has_relation other rows
    cases false e b later = later rows
    cases true e false later = refl
    cases true e true later =
        later (drop_relation s.name rows)
        ∙ ground (arith, has_relation-drop s.name other rows, apart e)

-- Dropping leaves every relation of another name alone.
pub drop_partitions_before-keeps :
    (lists : Bool) (works : List ℕ → Bool) (table : String) (cutoff : Date) (rows : Catalog)
    (other : List ℕ)
    → is_expired table cutoff other ≡ false
    → has_relation other (drop_partitions_before lists works table cutoff rows).0
      ≡ has_relation other rows
unfolding drop_partitions_before
drop_partitions_before-keeps lists works table cutoff rows other young = ground (
  arith,
  drop_specs-keeps works table cutoff (list_partitions table rows) rows other
      (list_partitions-Named table rows) young,
)

-- A relation that is gone stays gone.
drop_specs-gone :
    (works : List ℕ → Bool) (cutoff : Date) (specs : List PartitionSpec) (rows : Catalog)
    (other : List ℕ)
    → has_relation other rows ≡ false
    → has_relation other (drop_specs works cutoff specs rows).0 ≡ false
unfolding drop_specs
drop_specs-gone works cutoff [] rows other h = h
drop_specs-gone works cutoff (s ∷ specs) rows other h = ground (
  arith,
  drop_specs-gone works cutoff specs rows other,
  drop_specs-gone works cutoff specs (drop_relation s.name rows) other,
  has_relation-drop s.name other rows,
)

-- After a drop that worked, the listed days before the cutoff are gone.
abbrev pub GoneOrYoung : Date → Catalog → PartitionSpec → Type 0
GoneOrYoung cutoff rows s = (before_day s.day cutoff ≡ false) ⊎ (has_relation s.name rows ≡ false)

drop_specs-drops :
    (works : List ℕ → Bool) (cutoff : Date) (specs : List PartitionSpec) (rows : Catalog)
    → (drop_specs works cutoff specs rows).1 ≡ true
    → All (GoneOrYoung cutoff (drop_specs works cutoff specs rows).0) specs
unfolding drop_specs
drop_specs-drops works cutoff [] rows done = tt
drop_specs-drops works cutoff (s ∷ specs) rows done =
    cases (before_day s.day cutoff) refl (works s.name) (λ r. drop_specs-drops works cutoff specs r)
      done
  where
    Later : Type 0
    Later =
        (r : Catalog)
        → (drop_specs works cutoff specs r).1 ≡ true
        → All (GoneOrYoung cutoff (drop_specs works cutoff specs r).0) specs

    cases :
        (old : Bool)
        → before_day s.day cutoff ≡ old
        → (b : Bool) → Later
        → let after : Catalog × Bool = elim old [
          | false ↦ drop_specs works cutoff specs rows
          | true ↦ elim b [
            | false ↦ (rows, false)
            | true ↦ drop_specs works cutoff specs (drop_relation s.name rows)
          ]
        ] in
          after.1 ≡ true → All (GoneOrYoung cutoff after.0) (s ∷ specs)
    cases false e b later fine = (inl e, later rows fine)
    cases true e false later fine = absurd (cc)
    cases true e true later fine = (
      inr (
          drop_specs-gone works cutoff specs (drop_relation s.name rows) s.name
            (ground (arith, has_relation-drop s.name s.name rows, same_bytes_refl s.name))),
      later (drop_relation s.name rows) fine,
    )

pub drop_partitions_before-drops :
    (lists : Bool) (works : List ℕ → Bool) (table : String) (cutoff : Date) (rows : Catalog)
    → (drop_partitions_before lists works table cutoff rows).1 ≡ true
    → All
        (GoneOrYoung cutoff (drop_partitions_before lists works table cutoff rows).0)
        (list_partitions table rows)
unfolding drop_partitions_before
drop_partitions_before-drops lists works table cutoff rows done =
    cases (not (is_partitioned_table table) || not lists) done
  where
    cases :
        (b : Bool)
        → let after : Catalog × Bool =
            if b
            then (rows, false)
            else drop_specs works cutoff (list_partitions table rows) rows in
          after.1 ≡ true → All (GoneOrYoung cutoff after.0) (list_partitions table rows)
    cases true fine = absurd (cc)
    cases false fine = drop_specs-drops works cutoff (list_partitions table rows) rows fine

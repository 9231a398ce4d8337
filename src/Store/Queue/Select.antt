-- ===== src/Store/Queue/Select.antt =====
-- What a claim selects: ready rows only, the oldest first, and no more than the limit.
use huxio.Prelude.{
  ℕ, ◌+◌, ◌≤◌, ◌≡◌, inl, inr, true, false, ◌++◌, arith, contains, keep, drop, length, All, some,
  eq_iff, length-take, length-map, take-append-drop, All-take, All-sort_by, sort_by, All-keep,
  All-of, All-map_of, Bool-cases, none,
}
use mathlib.Core.List.{Perm}
use huxio.Prelude.Sort.{sort_by-perm, sort_by-IsSorted, take-before-drop}
use huxio.Domain.Task.{DeliveryTask}
use huxio.Store.Queue.{
  ClaimRequest, Rows, ready, before, order_rows, selected, locked, no_claim, claim,
}

module _ (P : DeliveryTask → Type 0) where
  -- What every ready row satisfies, every selected row satisfies.
  pub All-selected :
      (now : ℕ) (req : ClaimRequest) (rows : Rows)
      → All (λ t. ready now req t ≡ true → P t) rows
      → All P (selected now req rows)
  unfolding selected order_rows
  All-selected now req rows h =
      All-take P req.limit (order_rows (keep (ready now req) rows))
        (All-sort_by P before (keep (ready now req) rows) (All-keep P (ready now req) rows h))

-- What a claimed task looks like.
pub record IsClaimed (now : ℕ) (req : ClaimRequest) (t : DeliveryTask) : Type 0 where
  pub pool : t.pool ≡ req.pool
  pub partition : contains req.partitions t.partition_key ≡ true
  pub due : t.visible_at ≤ now
  pub holder : t.locked_by ≡ some req.owner_id
  pub until : t.locked_until ≡ some (now + req.lock_ttl)
  pub live : t.deleted_at ≡ none

locked-IsClaimed :
    (now : ℕ) (req : ClaimRequest) (t : DeliveryTask)
    → ready now req t ≡ true
    → IsClaimed now req (locked now req t)
unfolding ready
locked-IsClaimed now req t h = ground (arith, eq_iff t.pool req.pool)

-- A claim hands out at most `limit` tasks, each from the worker's pool and one of its partitions,
-- due, not deleted, and locked for the worker until its lock expires.
pub claim-IsClaimed :
    (now : ℕ) (req : ClaimRequest) (rows : Rows)
    → All (IsClaimed now req) (claim now req rows).1 × (length (claim now req rows).1 ≤ req.limit)
unfolding claim
claim-IsClaimed now req rows = elim (Bool-cases (no_claim req)) [
  | inl empty ↦ rw empty (tt, omega arith)
  | inr some' ↦ rw some' (
    All-map_of (IsClaimed now req) (locked now req) (selected now req rows) (
        All-selected (λ t. IsClaimed now req (locked now req t)) now req rows
          (All-of (λ t. ready now req t ≡ true → IsClaimed now req (locked now req t))
            (locked-IsClaimed now req) rows)),
    unfold selected in
        omega (
          arith,
          length-map (selected now req rows) (locked now req),
          length-take req.limit (order_rows (keep (ready now req) rows)),
        ),
  )
]

before_trans : (a b c : DeliveryTask) → before a b ≡ true → before b c ≡ true → before a c ≡ true
unfolding before
before_trans a b c h k = ground arith

before_total : (a b : DeliveryTask) → before a b ≡ false → before b a ≡ true
unfolding before
before_total a b h = ground arith

-- The rows that a claim leaves for later.
abbrev pub left_over : ℕ → ClaimRequest → Rows → Rows
left_over now req rows = drop req.limit (order_rows (keep (ready now req) rows))

-- The selected rows and those left over are together the ready ones, and each selected row comes
-- before each one left over, by its time and then its id.
pub selected_oldest :
    (now : ℕ) (req : ClaimRequest) (rows : Rows)
    → Perm (selected now req rows ++ left_over now req rows) (keep (ready now req) rows)
      × All (λ a. All (λ b. before a b ≡ true) (left_over now req rows)) (selected now req rows)
unfolding selected order_rows
selected_oldest now req rows =
    let sorted = sort_by before (keep (ready now req) rows) in
    (
      rw (take-append-drop req.limit sorted) (sort_by-perm before (keep (ready now req) rows)),
      take-before-drop before req.limit sorted
          (sort_by-IsSorted before before_trans before_total (keep (ready now req) rows)),
    )

-- ===== src/Store/Queue/Locks.antt =====
-- Who may hold a row: sequences of statements by any workers, and what they leave alone.
use huxio.Prelude.{
  ℕ, ◌+◌, ◌≤◌, ◌<◌, ◌≡◌, ◌≢◌, refl, sym, ap, ◌∙◌, ◌⊎◌, inl, inr, Bool, true, false, not, some, List,
  [], ◌∷◌, ◌++◌, map, arith, ◌==◌, if◌then◌else◌, contains, All, All-keep, All-append, All-imp,
  All-of, Bool-cases, String,
}
use huxio.Domain.Task.{DeliveryTask}
use huxio.Store.Queue.{
  ClaimRequest, Rows, EnqueueTask, ready, selected, ids, locked, unlocked, update_where, no_claim,
  claim, complete_many, retry, defer, release, rescue_stuck, enqueue, inserted, lock_expired,
}
use huxio.Store.Queue.Select.{All-selected}

-- One statement on the table.
pub data Statement : Type 0 where
  claims : ℕ → ClaimRequest → Statement
  completes : List ℕ → Statement
  retries defers : ℕ → ℕ → ℕ → Statement
  releases : List ℕ → Statement
  rescues : ℕ → Statement
  enqueues : ℕ → ℕ → List EnqueueTask → Statement

unfoldable pub execute : Statement → Rows → Rows
execute (claims now req) rows = (claim now req rows).0
execute (completes done) rows = complete_many done rows
execute (retries now id delay) rows = retry now id delay rows
execute (defers now id delay) rows = defer now id delay rows
execute (releases given) rows = release given rows
execute (rescues now) rows = rescue_stuck now rows
execute (enqueues now next es) rows = enqueue now next es rows

unfoldable pub execute_all : List Statement → Rows → Rows
execute_all [] rows = rows
execute_all (s ∷ ss) rows = execute_all ss (execute s rows)

-- A statement that is not about the row `id`, and that comes before its lock has run out. Any claim
-- is allowed.
abbrev pub Spares : ℕ → ℕ → Statement → Type 0
Spares id until (claims now req) = Unit
Spares id until (completes done) = contains done id ≡ false
Spares id until (retries now j delay) = j ≢ id
Spares id until (defers now j delay) = j ≢ id
Spares id until (releases given) = contains given id ≡ false
Spares id until (rescues now) = now ≤ until
Spares id until (enqueues now next es) = id < next

ids-map-locked : (now : ℕ) (req : ClaimRequest) (ts : Rows) → ids (map (locked now req) ts) ≡ ids ts
ids-map-locked now req [] = refl
ids-map-locked now req (t ∷ ts) = ap (λ r. t.id ∷ r) (ids-map-locked now req ts)

module _ (id : ℕ) (owner : String) (until : ℕ) where
  abbrev HoldsRow : DeliveryTask → Type 0
  HoldsRow t = t.id ≡ id → (t.locked_by ≡ some owner) × (t.locked_until ≡ some until)

  -- The row is locked by the owner.
  abbrev pub Held : Rows → Type 0
  Held = All HoldsRow

  Held-not_selected :
      (now : ℕ) (req : ClaimRequest) (rows : Rows)
      → Held rows
      → All (λ t. t.id ≢ id) (selected now req rows)
  Held-not_selected now req rows h =
      All-selected (λ t. t.id ≢ id) now req rows
        (All-imp HoldsRow (λ t. ready now req t ≡ true → t.id ≢ id) rows
          (λ t held is_ready same. unfold ready in ground (arith, held same)) h)

  ids_absent : (ts : Rows) → All (λ t. t.id ≢ id) ts → contains (ids ts) id ≡ false
  ids_absent [] h = refl
  ids_absent (t ∷ ts) h = ground (arith, h.0, ids_absent ts h.1)

  update_where-Held :
      (p : DeliveryTask → Bool) (f : DeliveryTask → DeliveryTask) (rows : Rows)
      → ((t : DeliveryTask) → (f t).id ≡ t.id)
      → All (λ t. t.id ≡ id → p t ≡ false) rows
      → Held rows
      → Held (update_where p f rows)
  unfolding update_where
  update_where-Held p f [] same spared h = tt
  update_where-Held p f (t ∷ ts) same spared h =
      (row (Bool-cases (p t)), update_where-Held p f ts same spared.1 h.1)
    where
      row : (p t ≡ true) ⊎ (p t ≡ false) → HoldsRow (if p t then f t else t)
      row (inl e) = rw e (λ at. cc (e, spared.0 (sym (same t) ∙ at)))
      row (inr e) = rw e h.0

  -- The rows with another id are all that a statement about `j` touches.
  spared_id : (j : ℕ) (rows : Rows) → j ≢ id → All (λ t. t.id ≡ id → (t.id == j) ≡ false) rows
  spared_id j rows ne = All-of (λ t. t.id ≡ id → (t.id == j) ≡ false) (λ t same. ground arith) rows

  enqueue-Held :
      (now next : ℕ) (es : List EnqueueTask) (rows : Rows)
      → id < next
      → Held rows
      → Held (enqueue now next es rows)
  unfolding enqueue
  enqueue-Held now next [] rows fresh h = h
  enqueue-Held now next (e ∷ es) rows fresh h =
      enqueue-Held now (next + 1) es (rows ++ inserted now next e ∷ []) (omega arith)
        (All-append HoldsRow rows (inserted now next e ∷ []) h ((λ same. absurd (omega arith)), tt))

  claim-Held_spared :
      (now : ℕ) (req : ClaimRequest) (rows : Rows) → Held rows → Held (claim now req rows).0
  unfolding claim
  claim-Held_spared now req rows h = elim (Bool-cases (no_claim req)) [
    | inl empty ↦ rw empty h
    | inr more ↦ rw more (
        update_where-Held (λ t. contains (ids (selected now req rows)) t.id) (locked now req) rows
          (λ t. refl)
          (All-of (λ t. t.id ≡ id → contains (ids (selected now req rows)) t.id ≡ false)
            (λ t same.
              rw same (ids_absent (selected now req rows) (Held-not_selected now req rows h)))
            rows)
          h)
  ]

  claim_spares :
      (now : ℕ) (req : ClaimRequest) (rows : Rows)
      → Held rows
      → contains (ids (claim now req rows).1) id ≡ false
  unfolding claim
  claim_spares now req rows h = elim (Bool-cases (no_claim req)) [
    | inl empty ↦ rw empty refl
    | inr more ↦
        rw (more, ids-map-locked)
          (ids_absent (selected now req rows) (Held-not_selected now req rows h))
  ]

  execute-Held :
      (s : Statement) (rows : Rows) → Spares id until s → Held rows → Held (execute s rows)
  unfolding execute
  execute-Held (claims now req) rows spares h = claim-Held_spared now req rows h
  execute-Held (completes done) rows spares h =
      unfold complete_many in
      All-keep HoldsRow (λ t. not (contains done t.id)) rows
        (All-imp HoldsRow (λ t. not (contains done t.id) ≡ true → HoldsRow t) rows
          (λ t held _. held) h)
  execute-Held (retries now j delay) rows spares h =
      unfold retry in update_where-Held _ _ rows (λ t. refl) (spared_id j rows spares) h
  execute-Held (defers now j delay) rows spares h =
      unfold defer in update_where-Held _ _ rows (λ t. refl) (spared_id j rows spares) h
  execute-Held (releases given) rows spares h =
      unfold release in
      update_where-Held (λ t. contains given t.id) unlocked rows (λ t. refl)
        (All-of (λ t. t.id ≡ id → contains given t.id ≡ false) (λ t same. rw same spares) rows) h
  execute-Held (rescues now) rows spares h =
      unfold rescue_stuck in
      update_where-Held (lock_expired now) unlocked rows (λ t. refl)
        (All-imp HoldsRow (λ t. t.id ≡ id → lock_expired now t ≡ false) rows
          (λ t held same. ground (arith, held same)) h)
        h
  execute-Held (enqueues now next es) rows spares h = enqueue-Held now next es rows spares h

  execute_all-Held :
      (ss : List Statement) (rows : Rows)
      → All (Spares id until) ss
      → Held rows
      → Held (execute_all ss rows)
  unfolding execute_all
  execute_all-Held [] rows spares h = h
  execute_all-Held (s ∷ ss) rows spares h =
      execute_all-Held ss (execute s rows) spares.1 (execute-Held s rows spares.0 h)

-- A claim leaves each row that it returns locked for the worker that asked.
claim-Held :
    (now : ℕ) (req : ClaimRequest) (rows : Rows) (id : ℕ)
    → contains (ids (claim now req rows).1) id ≡ true
    → Held id req.owner_id (now + req.lock_ttl) (claim now req rows).0
unfolding update_where
claim-Held now req rows id h = elim (Bool-cases (no_claim req)) [
  | inl empty ↦ absurd (unfold claim in cc (rw empty at h))
  | inr more ↦ unfold claim in rw more (go rows (unfold claim in rw (more, ids-map-locked) at h))
]
  where
    go :
        (rs : Rows)
        → contains (ids (selected now req rows)) id ≡ true
        → Held id req.owner_id
            (now + req.lock_ttl)
            (update_where (λ t. contains (ids (selected now req rows)) t.id) (locked now req) rs)
    go [] picked = tt
    go (t ∷ rs) picked = (
      (λ same. ground (arith, ap (λ i. contains (ids (selected now req rows)) i) (here same))),
      go rs picked,
    )
      where
        here :
            (if contains (ids (selected now req rows)) t.id then locked now req t else t).id ≡ id
            → t.id ≡ id
        here same = ground arith

-- No other claim hands out a task that was claimed: not in any sequence of claims, by any workers, on
-- any partitions, with enqueues, any statements on other tasks, and rescues up to the end of the lock
-- between them.
pub claimed_once :
    (now : ℕ) (req : ClaimRequest) (rows : Rows) (id : ℕ) (ss : List Statement)
    → contains (ids (claim now req rows).1) id ≡ true
    → All (Spares id (now + req.lock_ttl)) ss
    → (now' : ℕ) (req' : ClaimRequest)
    → contains (ids (claim now' req' (execute_all ss (claim now req rows).0)).1) id ≡ false
claimed_once now req rows id ss mine spares now' req' =
    let until = now + req.lock_ttl in
    claim_spares id req.owner_id until now' req' (execute_all ss (claim now req rows).0) (
      execute_all-Held id req.owner_id until ss (claim now req rows).0 spares
        (claim-Held now req rows id mine))

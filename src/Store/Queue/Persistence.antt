-- ===== src/Store/Queue/Persistence.antt =====
-- A queued task stays in the table until a statement completes it.
use huxio.Prelude.{
  ℕ, ◌+◌, ◌≤◌, ◌≡◌, refl, Bool, true, false, not, none, some, List, [], ◌∷◌, ◌++◌, arith, ltb, ◌∙◌,
  ap, ◌==◌, contains, keep, All, Bool-cases, inl, inr, eq_iff,
}
use huxio.Domain.Task.{DeliveryTask}
use huxio.Store.Queue.{
  ClaimRequest, Rows, EnqueueTask, ready, ids, locked, unlocked, update_where, no_claim, claim,
  complete_many, retry, defer, release, rescue_stuck, enqueue, inserted,
}
use huxio.Store.Queue.Locks.{
  Statement, claims, completes, retries, defers, releases, rescues, enqueues, execute, execute_all,
}

-- Only a completion of the row itself removes it.
abbrev pub Spared : ℕ → Statement → Type 0
Spared id (completes done) = contains done id ≡ false
Spared id _ = Unit

pub ids-update_where :
    (p : DeliveryTask → Bool) (f : DeliveryTask → DeliveryTask) (rows : Rows)
    → ((t : DeliveryTask) → (f t).id ≡ t.id)
    → ids (update_where p f rows) ≡ ids rows
unfolding update_where
ids-update_where p f [] same = refl
ids-update_where p f (t ∷ ts) same = ground (arith, same t, ids-update_where p f ts same)

contains-update_where :
    (p : DeliveryTask → Bool) (f : DeliveryTask → DeliveryTask) (id : ℕ) (rows : Rows)
    → ((t : DeliveryTask) → (f t).id ≡ t.id)
    → contains (ids rows) id ≡ true
    → contains (ids (update_where p f rows)) id ≡ true
contains-update_where p f id rows same h =
    ap (λ given. contains given id) (ids-update_where p f rows same) ∙ h

contains-claim :
    (now : ℕ) (req : ClaimRequest) (id : ℕ) (rows : Rows)
    → contains (ids rows) id ≡ true
    → contains (ids (claim now req rows).0) id ≡ true
unfolding claim
contains-claim now req id rows h = elim (Bool-cases (no_claim req)) [
  | inl empty ↦ rw empty h
  | inr more ↦ rw more (contains-update_where _ (locked now req) id rows (λ t. refl) h)
]

pub contains-keep :
    (done : List ℕ) (id : ℕ) (rows : Rows)
    → contains done id ≡ false
    → contains (ids (keep (λ t. not (contains done t.id)) rows)) id ≡ contains (ids rows) id
contains-keep done id [] h = refl
contains-keep done id (t ∷ ts) h = ground (arith, absent, contains-keep done id ts h)
  where
    absent : (t.id == id) ≡ true → contains done t.id ≡ false
    absent same = let e : t.id ≡ id = ground arith in rw e h

contains-enqueue :
    (now next id : ℕ) (es : List EnqueueTask) (rows : Rows)
    → contains (ids rows) id ≡ true
    → contains (ids (enqueue now next es rows)) id ≡ true
unfolding enqueue
contains-enqueue now next id [] rows h = h
contains-enqueue now next id (e ∷ es) rows h =
    contains-enqueue now (next + 1) id es (rows ++ inserted now next e ∷ []) (grown rows h)
  where
    grown :
        (rs : Rows)
        → contains (ids rs) id ≡ true
        → contains (ids (rs ++ inserted now next e ∷ [])) id ≡ true
    grown [] h = cc
    grown (r ∷ rs) h = ground (arith, grown rs)

contains-execute :
    (s : Statement) (id : ℕ) (rows : Rows)
    → Spared id s
    → contains (ids rows) id ≡ true
    → contains (ids (execute s rows)) id ≡ true
unfolding execute
contains-execute (completes done) id rows spared h =
    unfold complete_many in contains-keep done id rows spared ∙ h
contains-execute (claims now req) id rows spared h = contains-claim now req id rows h
contains-execute (retries now j delay) id rows spared h =
    unfold retry in contains-update_where _ _ id rows (λ t. refl) h
contains-execute (defers now j delay) id rows spared h =
    unfold defer in contains-update_where _ _ id rows (λ t. refl) h
contains-execute (releases given) id rows spared h =
    unfold release in contains-update_where _ unlocked id rows (λ t. refl) h
contains-execute (rescues now) id rows spared h =
    unfold rescue_stuck in contains-update_where _ unlocked id rows (λ t. refl) h
contains-execute (enqueues now next es) id rows spared h = contains-enqueue now next id es rows h

-- Whatever statements run, in any order, a task of the table is still there until one of them
-- completes it: retries, releases, rescues and failed workers lose nothing.
pub contains-execute_all :
    (ss : List Statement) (id : ℕ) (rows : Rows)
    → All (Spared id) ss
    → contains (ids rows) id ≡ true
    → contains (ids (execute_all ss rows)) id ≡ true
unfolding execute_all
contains-execute_all [] id rows spared h = h
contains-execute_all (s ∷ ss) id rows spared h =
    contains-execute_all ss id (execute s rows) spared.1 (contains-execute s id rows spared.0 h)

-- The task is what a claim looks for, but for its lock.
pub record IsDue (now : ℕ) (req : ClaimRequest) (t : DeliveryTask) : Type 0 where
  pub pool : t.pool ≡ req.pool
  pub partition : contains req.partitions t.partition_key ≡ true
  pub due : t.visible_at ≤ now
  pub live : t.deleted_at ≡ none

-- Tasks whose holder died can be claimed again: for tasks that a claim looks for but for their
-- locks, the rescue makes them ready once the locks have run out, and leaves them locked before.
pub rescue-ready :
    (now until : ℕ) (req : ClaimRequest) (rows : Rows)
    → All (λ t. IsDue now req t × (t.locked_until ≡ some until)) rows
    → All (λ t. ready now req t ≡ ltb until now) (rescue_stuck now rows)
unfolding rescue_stuck ready
rescue-ready now until req [] h = tt
rescue-ready now until req (t ∷ ts) h =
    (ground (arith, h.0, eq_iff t.pool req.pool), rescue-ready now until req ts h.1)

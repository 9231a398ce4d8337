-- ===== src/Dispatch/Writer/Flush.antt =====
-- A flush writes the attempts before it touches their queue rows.
use huxio.Prelude.{
  ℕ, ◌≡◌, refl, ap, ◌∙◌, inl, inr, true, false, Option, none, some, List, [], ◌∷◌, ◌++◌, arith,
  contains, Bool-cases,
}
use huxio.Store.Queue.{Rows, ids, complete_many, retry}
use huxio.Store.Queue.Persistence.{ids-update_where, contains-keep}
use huxio.Dispatch.Ports.{TaskOutcome, AttemptRecord}
use huxio.Dispatch.Writer.{
  Tables, Answers, attempts_of, completed, retry_one, retry_all, finalize, flush,
}

ids-retry : (now id delay : ℕ) (q : Rows) → ids (retry now id delay q) ≡ ids q
unfolding retry
ids-retry now id delay q = ids-update_where _ _ q (λ t. refl)

ids-retry_one : (a : Answers) (o : Option TaskOutcome) (q : Rows) → ids (retry_one a o q) ≡ ids q
unfolding retry_one
ids-retry_one a none q = refl
ids-retry_one a (some o) q = ground (arith, ids-retry a.now o.task_id o.delay q)

ids-retry_all : (a : Answers) (rs : List AttemptRecord) (q : Rows) → ids (retry_all a rs q) ≡ ids q
unfolding retry_all
ids-retry_all a [] q = refl
ids-retry_all a (r ∷ rs) q = ids-retry_all a rs (retry_one a r.task q) ∙ ids-retry_one a r.task q

complete_many-keeps :
    (done : List ℕ) (id : ℕ) (q : Rows)
    → contains done id ≡ false
    → contains (ids (complete_many done q)) id ≡ contains (ids q) id
unfolding complete_many
complete_many-keeps done id q h = contains-keep done id q h

finalize-removes :
    (a : Answers) (batch : List AttemptRecord) (q : Rows) (id : ℕ)
    → contains (ids q) id ≡ true
    → contains (ids (finalize a batch q)) id ≡ false
    → contains (completed batch) id ≡ true
unfolding finalize
finalize-removes a batch q id here gone = elim (Bool-cases (contains (completed batch) id)) [
  | inl listed ↦ listed
  | inr unlisted ↦ absurd (
      ground (
        arith,
        ap (λ is. contains is id) (ids-retry_all a batch q),
        complete_many-keeps (completed batch) id (retry_all a batch q) unlisted,
      ))
]

-- If a flush takes a task off the queue, it has written the attempts of its whole batch, and the batch
-- has a record that completes the task: the writer takes no task off before its attempt is recorded.
pub flush_durable :
    (a : Answers) (batch : List AttemptRecord) (t : Tables) (id : ℕ)
    → contains (ids t.queue) id ≡ true
    → contains (ids (flush a batch t).queue) id ≡ false
    → (a.copy_fails ≡ false)
      × ((flush a batch t).attempts ≡ t.attempts ++ attempts_of batch)
      × (contains (completed batch) id ≡ true)
unfolding flush
flush_durable a batch t id here gone = ground (arith, finalize-removes a batch t.queue id here)

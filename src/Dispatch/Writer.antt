-- ===== src/Dispatch/Writer.antt =====
-- internal/application/dispatch/attempt_writer.go: the batched writer of attempt records.
-- The writer's goroutine is a sequence of events, one for each case that its `select` takes. The
-- attempt table and the queue are the tables that it writes; which of its calls fail is an argument.
-- The queue of the program has `CompleteMany`, so the fallback of `completeMany` is not modelled.
-- Logging and metrics are left out.
pub mod Flush
pub mod Buffer
mod Examples
use huxio.Prelude.{
  ℕ, ◌+◌, max, Bool, true, false, not, ◌&&◌, ◌||◌, Option, none, some, List, [], ◌∷◌, ◌++◌, ltb,
  leb, ◌==◌, if◌then◌else◌, length, ℤ, positive_or, ltb_ℤ, pos,
}
use huxio.Domain.Attempt.{DeliveryAttempt}
use huxio.Store.Queue.{Rows, complete_many, retry}
use huxio.Dispatch.Ports.{TaskAction, TaskOutcome, AttemptRecord}
use huxio.Dispatch.Ports

pub record WriterOptions : Type 0 where
  pub buffer_size : ℕ
  pub batch_size : ℕ
  pub flush_interval : ℕ

unfoldable pub writer_options : ℤ → ℤ → ℤ → WriterOptions
writer_options buffer batch interval =
    let size = positive_or batch 500 in
    record {
      buffer_size = if ltb_ℤ buffer (pos size) then max size 8192 else positive_or buffer size;
      batch_size = size;
      flush_interval = positive_or interval 5_000_000;
    }

-- The tables.
pub record Tables : Type 0 where
  pub attempts : List DeliveryAttempt
  pub queue : Rows

-- The answers to the calls of one flush: `retry_fails` by the task's id.
pub record Answers : Type 0 where
  pub now : ℕ
  pub copy_fails : Bool
  pub retry_fails : ℕ → Bool
  pub complete_fails : Bool

abbrev pub attempts_of : List AttemptRecord → List DeliveryAttempt
attempts_of [] = []
attempts_of (r ∷ rs) = r.attempt ∷ attempts_of rs

-- The ids that one record completes.
completes_of : Option TaskOutcome → List ℕ
completes_of none = []
completes_of (some o) = elim o.action [ Ports.complete ↦ o.task_id ∷ [] | Ports.retry ↦ [] ]

unfoldable pub completed : List AttemptRecord → List ℕ
unfolding completes_of
completed [] = []
completed (r ∷ rs) = completes_of r.task ++ completed rs

-- The retry of one record, if it has one.
retry_one : Answers → Option TaskOutcome → Rows → Rows
retry_one a none q = q
retry_one a (some o) q = elim o.action [
  | Ports.complete ↦ q
  | Ports.retry ↦ if a.retry_fails o.task_id then q else retry a.now o.task_id o.delay q
]

unfoldable pub retry_all : Answers → List AttemptRecord → Rows → Rows
unfolding retry_one
retry_all a [] q = q
retry_all a (r ∷ rs) q = retry_all a rs (retry_one a r.task q)

unfoldable pub finalize : Answers → List AttemptRecord → Rows → Rows
finalize a batch q =
    let retried = retry_all a batch q in
    if (length (completed batch) == 0) || a.complete_fails
    then retried
    else complete_many (completed batch) retried

-- `flush`; the batch is empty afterwards.
unfoldable pub flush : Answers → List AttemptRecord → Tables → Tables
flush a batch t =
    if length batch == 0
    then t
    else if a.copy_fails
    then t
    else record t { attempts = t.attempts ++ attempts_of batch; queue = finalize a batch t.queue }

-- `flushed` is a history: the batches that were handed to `flush`, whether or not the write failed.
pub record Writer : Type 0 where
  pub opts : WriterOptions
  pub records : List AttemptRecord
  pub batch : List AttemptRecord
  pub timer_running : Bool
  pub done : Bool
  pub flushed : List (List AttemptRecord)

unfoldable pub new_writer : ℤ → ℤ → ℤ → Writer
new_writer buffer batch interval = record {
  opts = writer_options buffer batch interval;
  records = [];
  batch = [];
  timer_running = false;
  done = false;
  flushed = [];
}

-- `Enqueue`, where its send can proceed: the channel has room. After `Run` has returned, the send
-- and the error are both ready, and this is the send.
unfoldable pub enqueue : AttemptRecord → Writer → Writer × Bool
enqueue r w =
    if ltb (length w.records) w.opts.buffer_size
    then (record w { records = w.records ++ r ∷ [] }, true)
    else (w, false)

-- The batch goes to `flush`, where it is not empty, and is emptied.
abbrev pub flush_batch : Writer → Writer
flush_batch w = record w { batch = []; flushed = w.flushed ++ w.batch ∷ []; timer_running = false }

-- A record is received.
receive_next : List AttemptRecord → Writer → Writer
receive_next [] w = w
receive_next (r ∷ rs) w =
    let w' = record w {
      records = rs;
      batch = w.batch ++ r ∷ [];
      timer_running = w.timer_running || (length w.batch == 0);
    } in
    if leb w.opts.batch_size (length w.batch + 1) then flush_batch w' else w'

unfoldable pub receive : Writer → Writer
unfolding receive_next
receive w = receive_next w.records w

-- The timer fires.
unfoldable pub tick : Writer → Writer
tick w = if w.timer_running then flush_batch w else w

-- The inner loop of the shutdown, over what the channel holds.
drain_records : ℕ → List AttemptRecord → List AttemptRecord → List (List AttemptRecord)
drain_records size [] batch = batch ∷ []
drain_records size (r ∷ rs) batch = elim (leb size (length batch + 1)) [
  | true ↦ (batch ++ r ∷ []) ∷ drain_records size rs []
  | false ↦ drain_records size rs (batch ++ r ∷ [])
]

unfoldable pub shutdown : Writer → Writer
unfolding drain_records
shutdown w = record w {
  records = [];
  batch = [];
  timer_running = false;
  done = true;
  flushed = w.flushed ++ drain_records w.opts.batch_size w.records w.batch;
}

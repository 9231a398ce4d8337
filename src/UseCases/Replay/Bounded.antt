-- ===== src/UseCases/Replay/Bounded.antt =====
-- What a replay puts into the queue: deliver tasks for deliveries that have failed, in a batch.
use mathlib.Core.List.{append_assoc, append-nil}
use huxio.Prelude.{
  ℕ, ◌+◌, ◌≤◌, ◌≡◌, refl, sym, ◌∙◌, ap, Bool, true, false, ◌&&◌, Option, none, some, List, [], ◌∷◌,
  ◌++◌, map, String, ltb, arith, if◌then◌else◌, length, length-append, length-map, take,
  length-take, All, All-append, All-take, not,
}
use huxio.Domain.Errors.{AppError, new_internal_error}
use huxio.Domain.Ids.{Ksuid, time_of}
use huxio.Domain.Task.{bulk_replay}
use huxio.Store.Queue.{Rows}
use huxio.Store.Attempts.{AttemptFilters, FailedDelivery, list_failed_deliveries}
use huxio.Store.Attempts.Seen.{HasFailed, list_failed_deliveries-HasFailed}
use huxio.UseCases.{AppRef}
use huxio.UseCases.Replay.{
  ReplayAnswers, QueueTable, ReplayResult, Groups, max_replay_batch, nothing, replay_task,
  enqueue_replays, by_message, replay_groups, replay_listed, replay_filtered,
}
use huxio.UseCases.Replay.Groups.{
  rows_of, enqueue-append, length-rows_of, IsReplayOf, rows_of-IsReplayOf, total, AllIn,
  by_message-AllIn,
}

module _ (P : FailedDelivery → Type 0) where
  -- What a replay has added to the queue when it ends, also by an error.
  pub record Adds (q : QueueTable) (result : ReplayResult) (most : ℕ) (q' : QueueTable)
      (result' : ReplayResult) : Type 0 where
    pub new : Rows
    pub rows : q'.rows ≡ q.rows ++ new
    pub enqueued : result'.enqueued ≡ result.enqueued + length new
    pub bound : length new ≤ most
    pub replays : All (IsReplayOf P) new
    pub truncated : result'.truncated ≡ result.truncated

  Adds-refl : (q : QueueTable) (result : ReplayResult) (most : ℕ) → Adds q result most q result
  Adds-refl q result most = record {
    new = [];
    rows = sym (append-nil q.rows);
    enqueued = omega arith;
    bound = omega arith;
    replays = tt;
    truncated = refl;
  }

  Adds-within :
      (q q' : QueueTable) (result result' : ReplayResult) (n most : ℕ)
      → n ≤ most
      → Adds q result n q' result'
      → Adds q result most q' result'
  Adds-within q q' result result' n most le h = record {
    new = h.new;
    rows = h.rows;
    enqueued = h.enqueued;
    bound = omega (arith, h.bound);
    replays = h.replays;
    truncated = h.truncated;
  }

  Adds-enqueue :
      (app : AppRef) (pool : String) (created_at now : ℕ) (ds : List FailedDelivery)
      (q q' : QueueTable) (result result' : ReplayResult) (most : ℕ)
      → All P ds
      → Adds
          (enqueue_replays app pool created_at bulk_replay now ds q)
          (record result { enqueued = result.enqueued + length ds })
          most
          q'
          result'
      → Adds q result (length ds + most) q' result'
  unfolding enqueue_replays
  Adds-enqueue app pool created_at now ds q q' result result' most ps h =
      let tasks = map (replay_task app pool created_at bulk_replay now) ds in
      let fresh = rows_of now q.next_id tasks in
      let size : length fresh ≡ length ds =
        length-rows_of now q.next_id tasks
        ∙ length-map ds (replay_task app pool created_at bulk_replay now) in
      record {
        new = fresh ++ h.new;
        rows =
            h.rows
            ∙ ap (λ r. r ++ h.new) (enqueue-append now q.next_id tasks q.rows)
            ∙ append_assoc q.rows fresh h.new;
        enqueued = omega (arith, h.enqueued, size, length-append fresh h.new);
        bound = omega (arith, h.bound, size, length-append fresh h.new);
        replays =
            All-append (IsReplayOf P) fresh h.new
              (rows_of-IsReplayOf P app pool created_at now q.next_id ds ps) h.replays;
        truncated = h.truncated;
      }

  replay_groups-Adds :
      (k : Ksuid) (app : AppRef) (pool : String) (a : ReplayAnswers) (groups : Groups)
      (result : ReplayResult) (q : QueueTable)
      → AllIn P groups
      → let (q', result', e) = replay_groups k app pool a groups result q in
        Adds q result (total P groups) q' result'
  unfolding replay_groups
  replay_groups-Adds k app pool a [] result q ps = Adds-refl q result 0
  replay_groups-Adds k app pool a ((msg_id, ds) ∷ groups) result q ps =
      cases (time_of k msg_id) (a.enqueue_works msg_id)
        (λ r q2. replay_groups-Adds k app pool a groups r q2 ps.1)
    where
      Later : Type 0
      Later =
          (r : ReplayResult) (q2 : QueueTable)
          → let (q', r', e) = replay_groups k app pool a groups r q2 in
            Adds q2 r (total P groups) q' r'

      Goal : QueueTable × ReplayResult × Option AppError → Type 0
      Goal (q', result', e) = Adds q result (length ds + total P groups) q' result'

      cases :
          (at : Option ℕ) (works : Bool)
          → Later
          → Goal (elim at [
            | none ↦ replay_groups k app pool a groups result q
            | some created_at ↦ elim works [
              | false ↦ (q, result, some new_internal_error)
              | true ↦
                  replay_groups k app pool a groups
                    (record result { enqueued = result.enqueued + length ds })
                    (enqueue_replays app pool created_at bulk_replay a.now ds q)
            ]
          ])
      cases none works later =
          let (q', result', e) = replay_groups k app pool a groups result q in
          Adds-within q q' result result' (total P groups) (length ds + total P groups)
            (omega arith) (later result q)
      cases (some at) false later = Adds-refl q result (length ds + total P groups)
      cases (some at) true later =
          let counted : ReplayResult = record result { enqueued = result.enqueued + length ds } in
          let queued = enqueue_replays app pool at bulk_replay a.now ds q in
          let (q', result', e) = replay_groups k app pool a groups counted queued in
          Adds-enqueue app pool at a.now ds q q' result result' (total P groups) ps.0
            (later counted queued)

-- The result that a replay starts from: nothing enqueued, and whether more has failed than a batch.
abbrev pub start_of : ReplayAnswers → AttemptFilters → ReplayResult
start_of a f = record {
  enqueued = 0;
  truncated =
      a.list_works
      && ltb max_replay_batch (length (list_failed_deliveries f (max_replay_batch + 1) a.attempts));
}

-- A replay only appends to the queue, also where it stops at an error: as many tasks as it reports, at
-- most a batch, each a bulk replay of a delivery whose latest attempt in the filters failed. It
-- reports as truncated when more of these were listed than a batch holds.
pub replay_filtered-Adds :
    (k : Ksuid) (app : AppRef) (pool : String) (a : ReplayAnswers) (f : AttemptFilters)
    (q : QueueTable)
    → let (q', result, e) = replay_filtered k app pool a f q in
      Adds (HasFailed f a.attempts) q (start_of a f) max_replay_batch q' result
unfolding replay_filtered replay_listed
replay_filtered-Adds k app pool a f q = cases a.list_works
  where
    failed : List FailedDelivery
    failed = list_failed_deliveries f (max_replay_batch + 1) a.attempts

    batch : List FailedDelivery
    batch = take max_replay_batch failed

    begin : Bool → ReplayResult
    begin works = record { enqueued = 0; truncated = works && ltb max_replay_batch (length failed) }

    cases :
        (works : Bool)
        → let (q', result, e) =
            if not works
            then (q, nothing, some new_internal_error)
            else replay_groups k app pool a (by_message batch []) (begin true) q in
          Adds (HasFailed f a.attempts) q (begin works) max_replay_batch q' result
    cases false = Adds-refl (HasFailed f a.attempts) q nothing max_replay_batch
    cases true =
        let P = HasFailed f a.attempts in
        let (all, sum) =
          by_message-AllIn P batch []
            (All-take P max_replay_batch failed
              (list_failed_deliveries-HasFailed f a.attempts (max_replay_batch + 1)))
            tt in
        let (q', result, e) = replay_groups k app pool a (by_message batch []) (begin true) q in
        Adds-within P q q' (begin true) result (total P (by_message batch [])) max_replay_batch
          (omega (arith, sum, length-take max_replay_batch failed))
          (replay_groups-Adds P k app pool a (by_message batch []) (begin true) q all)

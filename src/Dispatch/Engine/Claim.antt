-- ===== src/Dispatch/Engine/Claim.antt =====
-- internal/application/dispatch/engine.go, `claimAndDispatch` and the in-flight slots.
-- `stop_at` is how many of the tasks get a slot before the context ends; a slot that is taken at once
-- cannot fail. `in_flight` is the length of the channel.
pub mod Budget
use huxio.Prelude.{
  ℕ, ◌+◌, ◌-◌, min, Bool, true, false, ◌||◌, List, [], ◌∷◌, String, ltb, leb, ◌==◌, if◌then◌else◌,
  length, take,
}
use huxio.Domain.Task.{DeliveryTask}
use huxio.Store.Queue.{ClaimRequest, Rows, claim, release, ids}
use huxio.Dispatch.Engine.{EngineOptions}

-- The queue, the slots in use, the tasks that were started, and what is returned: the count, and an
-- error of the context or of the claim.
pub record Claimed : Type 0 where
  pub queue : Rows
  pub in_flight : ℕ
  pub started : List DeliveryTask
  pub count : ℕ
  pub stopped : Bool
  pub failed : Bool

unfoldable pub claim_request : EngineOptions → List ℕ → ℕ → ClaimRequest
claim_request opts partitions in_flight = record {
  pool = opts.pool;
  partitions = partitions;
  owner_id = opts.worker_id;
  lock_ttl = opts.lock_ttl;
  limit = min opts.claim_batch_size (opts.max_inflight - in_flight);
}

-- The loop over the tasks that were claimed. Where it stops, every one of them is released.
dispatch : ℕ → ℕ → Rows × List DeliveryTask → Claimed
dispatch stop_at in_flight (queue, tasks) =
    let started = take stop_at tasks in
    let stopped = ltb stop_at (length tasks) in
    record {
      queue = if stopped then release (ids tasks) queue else queue;
      in_flight = in_flight + length started;
      started = started;
      count = length tasks;
      stopped = stopped;
      failed = false;
    }

-- What `Claim` answers: its tasks, or an error, before the statement or after it.
pub data ClaimReply : Type 0 where
  replies fails loses_reply : ClaimReply

-- Nothing is started.
abbrev pub idle : Bool → ℕ → Rows → Claimed
idle failed in_flight queue = record {
  queue = queue;
  in_flight = in_flight;
  started = [];
  count = 0;
  stopped = false;
  failed = failed;
}

answered : ClaimReply → ℕ → ℕ → Rows → Rows × List DeliveryTask → Claimed
unfolding dispatch
answered replies stop_at in_flight queue r = dispatch stop_at in_flight r
answered fails stop_at in_flight queue r = idle true in_flight queue
answered loses_reply stop_at in_flight queue r = idle true in_flight r.0

unfoldable pub claim_and_dispatch : EngineOptions → List ℕ → ClaimReply → ℕ → ℕ → ℕ → Rows → Claimed
unfolding answered claim_request
claim_and_dispatch opts partitions reply now in_flight stop_at queue =
    if (length partitions == 0) || leb opts.max_inflight in_flight
    then idle false in_flight queue
    else answered reply stop_at in_flight queue
        (claim now (claim_request opts partitions in_flight) queue)

-- `inflightSlot.release`: a slot that is not held is left alone.
unfoldable pub release_slot : Bool → ℕ → Bool × ℕ
release_slot held in_flight = if held then (false, in_flight - 1) else (false, in_flight)

-- ===== src/UseCases/Replay.antt =====
-- internal/application/usecases/attempt_usecase.go: the delivery log, and the deliveries that are
-- sent again. The zero time is 0. Go walks the groups of a replay in any order; here they come in the
-- order of their first delivery.
pub mod Groups
pub mod Bounded
pub mod Calls
mod Examples
use huxio.Prelude.{
  ℕ, ◌+◌, Bool, true, false, not, ◌&&◌, Option, none, some, List, [], ◌∷◌, ◌++◌, map, String,
  str_eq, ltb, leb, ◌==◌, if◌then◌else◌, length, take, ◌*◌, ◌/◌, is_set,
}
use huxio.Domain.Endpoint.{Endpoint}
use huxio.Domain.Errors.{
  Result, ok, err, AppError, ◌>>=◌, ◌>>◌, fail_if, new_not_found_error, new_validation_error,
  new_internal_error,
}
use huxio.Domain.Ids.{Ksuid, time_of}
use huxio.Domain.Task.{TriggerType, manual, bulk_replay, deliver, partition_key_for}
use huxio.Domain.Attempt.{DeliveryAttempt, AttemptStatus}
use huxio.Store.Filters.{Filter, no_filter, equal_to, any_of}
use huxio.Store.Messages.{Message}
use huxio.Store.Queue.{EnqueueTask, Rows, enqueue}
use huxio.Store.Attempts.{
  AttemptFilters, FailedDelivery, list_failed_deliveries, AttemptStats, attempt_stats,
}
use huxio.UseCases.{AppRef, Resolver, resolve}
use huxio.UseCases.Endpoints.{EndpointAnswers, look_up}
use huxio.UseCases.Ingest.{day}

abbrev pub max_replay_batch : ℕ
max_replay_batch = 5000

-- What a request reads, and what its calls answer.
pub record ReplayAnswers : Type 0 where
  pub now : ℕ
  pub resolver : Resolver
  pub endpoints : List Endpoint
  pub look_ups : EndpointAnswers
  pub messages : List Message
  pub message_works : Bool
  pub attempts : List DeliveryAttempt
  pub list_works : Bool
  -- the enqueue of a message's deliveries
  pub enqueue_works : String → Bool

pub record QueueTable : Type 0 where
  pub rows : Rows
  pub next_id : ℕ

pub record ReplayResult : Type 0 where
  pub enqueued : ℕ
  pub truncated : Bool

pub record RecoverInput : Type 0 where
  pub org_id : String
  pub app_id_or_uid : String
  pub endpoint_id : String
  pub since : ℕ
  pub until : Option ℕ

pub record ReplayInput : Type 0 where
  pub org_id : String
  pub app_id_or_uid : String
  pub endpoint_ids : List String
  pub event_types : List String
  pub since : ℕ
  pub until : Option ℕ

-- `validateReplayWindow`
unfoldable pub validate_replay_window : ℕ → Option ℕ → Result (Unit {0})
validate_replay_window since until = do
  fail_if (since == 0) (new_validation_error "since is required")
  elim until [
    | none ↦ ok tt
    | some end ↦ fail_if (not (ltb since end)) (new_validation_error "until must be after since")
  ]

-- `resolveEndpoint`
unfoldable pub resolve_endpoint : ReplayAnswers → String → String → Result String
resolve_endpoint a app_id key = do ep ← look_up a.look_ups app_id key a.endpoints; ok ep.id

abbrev pub no_filters : AttemptFilters
no_filters = record {
  id = none;
  org_id = none;
  app_id = none;
  msg_id = none;
  endpoint_id = none;
  status = none;
  status_code_class = none;
  created_at = none;
  trigger_type = none;
}

-- The window of a replay, in an application.
unfoldable pub window : String → ℕ → Option ℕ → AttemptFilters
window app_id since until = record no_filters {
  app_id = some (equal_to app_id);
  created_at = some (record no_filter { gte = some since; lt = until });
}

unfoldable pub replay_task : AppRef → String → ℕ → TriggerType → ℕ → FailedDelivery → EnqueueTask
replay_task app pool created_at trigger now d = record {
  partition_key = partition_key_for d.endpoint_id;
  pool = pool;
  kind = deliver;
  org_id = app.org_id;
  app_id = app.id;
  msg_id = d.msg_id;
  msg_created_at = created_at;
  endpoint_id = some d.endpoint_id;
  attempt = 0;
  trigger_type = trigger;
  visible_at = now;
}

-- `enqueueReplays` where the call works; the wake-ups at its end are best effort.
unfoldable pub enqueue_replays :
    AppRef → String → ℕ → TriggerType → ℕ → List FailedDelivery → QueueTable → QueueTable
unfolding replay_task
enqueue_replays app pool created_at trigger now ds q = record {
  rows = enqueue now q.next_id (map (replay_task app pool created_at trigger now) ds) q.rows;
  next_id = q.next_id + length ds;
}

abbrev pub Groups : Type 0
Groups = List (String × List FailedDelivery)

-- `byMessage[m] = append(byMessage[m], d)`
unfoldable pub add_delivery : FailedDelivery → Groups → Groups
add_delivery d [] = (d.msg_id, d ∷ []) ∷ []
add_delivery d ((msg_id, ds) ∷ groups) =
    let rest = add_delivery d groups in
    if str_eq msg_id d.msg_id then (msg_id, ds ++ d ∷ []) ∷ groups else (msg_id, ds) ∷ rest

unfoldable pub by_message : List FailedDelivery → Groups → Groups
unfolding add_delivery
by_message [] groups = groups
by_message (d ∷ ds) groups = by_message ds (add_delivery d groups)

-- The loop over the groups. A group whose message id carries no time is skipped; the first enqueue
-- that fails ends the loop, with what was enqueued before.
unfoldable pub replay_groups :
    Ksuid
    → AppRef
    → String
    → ReplayAnswers
    → Groups
    → ReplayResult
    → QueueTable
    → QueueTable × ReplayResult × Option AppError
replay_groups k app pool a [] result q = (q, result, none)
replay_groups k app pool a ((msg_id, ds) ∷ groups) result q = elim (time_of k msg_id) [
  | none ↦ replay_groups k app pool a groups result q
  | some created_at ↦ elim (a.enqueue_works msg_id) [
    | false ↦ (q, result, some new_internal_error)
    | true ↦
        replay_groups k app pool a groups (record result { enqueued = result.enqueued + length ds })
          (enqueue_replays app pool created_at bulk_replay a.now ds q)
  ]
]

abbrev pub nothing : ReplayResult
nothing = record { enqueued = 0; truncated = false }

-- The batch of a replay, from the deliveries that were listed.
unfoldable pub replay_listed :
    Ksuid
    → AppRef
    → String
    → ReplayAnswers
    → List FailedDelivery
    → QueueTable
    → QueueTable × ReplayResult × Option AppError
unfolding by_message
replay_listed k app pool a failed q =
    replay_groups k app pool a (by_message (take max_replay_batch failed) [])
      (record { enqueued = 0; truncated = ltb max_replay_batch (length failed) }) q

-- `replay`
unfoldable pub replay_filtered :
    Ksuid
    → AppRef
    → String
    → ReplayAnswers
    → AttemptFilters
    → QueueTable
    → QueueTable × ReplayResult × Option AppError
unfolding replay_listed
replay_filtered k app pool a f q =
    if not a.list_works
    then (q, nothing, some new_internal_error)
    else replay_listed k app pool a (list_failed_deliveries f (max_replay_batch + 1) a.attempts) q

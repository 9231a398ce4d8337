-- ===== src/UseCases/Ingest.antt =====
-- internal/application/usecases/ingest_usecase.go: a message and one fan-out task, stored in one
-- transaction. The JSON check and the payload codec are parameters; `now` is one reading of the
-- clock, and the fields of `IngestAnswers` are what the calls answer.
pub mod Stored
pub mod Duplicates
mod Examples
use huxio.Prelude.{
  ℕ, ◌+◌, ◌*◌, Bool, true, false, not, ◌&&◌, ◌||◌, Option, none, some, List, [], ◌∷◌, String, ltb,
  leb, ◌==◌, if◌then◌else◌, length, positive_or, ℤ, pos, ltb_ℤ, str_eq,
}
use huxio.Utils.{is_blank}
use huxio.Domain.Errors.{
  Result, ok, err, AppError, ◌>>=◌, ◌>>◌, fail_if, new_validation_error,
  new_payload_too_large_error, new_conflict_error, new_internal_error,
}
use huxio.Domain.Ids.{Ksuid, new_at, time_of}
use huxio.Domain.Task.{fanout, scheduled, partition_key_for}
use huxio.Dispatch.Breaker.{second}
use huxio.Config.Snapshot.{Snapshot, matching_endpoints}
use huxio.Store.Queue.{EnqueueTask, Rows, enqueue}
use huxio.Store.Messages.{
  Message, Answer, answers, fails, RepoError, conflict, failed, create_message, Commit,
  within_transaction,
}
use huxio.UseCases.{AppRef, Resolver, resolve}

pub record IngestConfig : Type 0 where
  pub max_payload_bytes : ℕ
  pub default_retention_days : ℕ
  pub pool : String

-- The defaulting of `NewIngestUseCase`.
unfoldable pub ingest_config : ℤ → ℤ → String → IngestConfig
ingest_config max_bytes days pool = record {
  max_payload_bytes = positive_or max_bytes 1_048_576;
  default_retention_days = positive_or days 90;
  pool = if str_eq pool "" then "default" else pool;
}

pub record IngestInput : Type 0 where
  pub org_id : String
  pub app_id_or_uid : String
  pub event_type : String
  pub event_id : Option String
  pub payload : List ℕ
  pub channels : List String
  pub retention_days : Option ℤ

pub record IngestResult : Type 0 where
  pub message : Message
  pub matched_endpoints : ℕ
  pub payload : List ℕ

-- `json.Valid`, and the payload codec's `Encode`.
pub record Codec : Type 0 where
  pub json_valid : List ℕ → Bool
  pub encode : List ℕ → List ℕ

pub record IngestAnswers : Type 0 where
  pub now : ℕ
  pub entropy : ℕ
  pub begins : Bool
  pub insert_works : Bool
  pub enqueue_works : Bool
  pub end : Commit

-- The tables that a transaction of the use case writes, with the queue's next id.
pub record Tables : Type 0 where
  pub messages : List Message
  pub queue : Rows
  pub next_id : ℕ

abbrev pub out_of_range : Option ℤ → Bool
out_of_range none = false
out_of_range (some days) = not (ltb_ℤ (pos 0) days) || ltb_ℤ (pos 365) days

-- `validate`, its five checks in their order.
unfoldable pub validate : IngestConfig → Codec → IngestInput → Result (Unit {0})
validate cfg c i = do
  fail_if (is_blank i.event_type) (new_validation_error "eventType is required")
  fail_if (ltb cfg.max_payload_bytes (length i.payload))
      (new_payload_too_large_error "payload exceeds the maximum size")
  fail_if (length i.payload == 0) (new_validation_error "payload is required")
  fail_if (not (c.json_valid i.payload)) (new_validation_error "payload must be well-formed JSON")
  fail_if (out_of_range i.retention_days)
      (new_validation_error "payloadRetentionPeriod must be between 1 and 365 days")

abbrev pub day : ℕ
day = 86_400 * second

-- `Deref(in.RetentionDays, default)`; validation has left the range 1 to 365.
abbrev pub retention : IngestConfig → IngestInput → ℕ
retention cfg i = elim i.retention_days [
  | none ↦ cfg.default_retention_days
  | some days ↦ positive_or days 0
]

unfoldable pub message_of : IngestConfig → Codec → AppRef → IngestInput → String → ℕ → Message
message_of cfg c app i id created_at = record {
  id = id;
  created_at = created_at;
  org_id = app.org_id;
  app_id = app.id;
  event_type = i.event_type;
  uid = i.event_id;
  channels = i.channels;
  payload = c.encode i.payload;
  payload_size = length i.payload;
  expires_at = created_at + retention cfg i * day;
  deleted_at = none;
}

unfoldable pub fanout_task : IngestConfig → ℕ → Message → EnqueueTask
fanout_task cfg now m = record {
  partition_key = partition_key_for m.app_id;
  pool = cfg.pool;
  kind = fanout;
  org_id = m.org_id;
  app_id = m.app_id;
  msg_id = m.id;
  msg_created_at = m.created_at;
  endpoint_id = none;
  attempt = 0;
  trigger_type = scheduled;
  visible_at = now;
}

-- The enqueue that follows the insert in the transaction.
enqueue_fanout :
    IngestConfig → IngestAnswers → Message → Tables → Answer (List Message) → Answer Tables
enqueue_fanout cfg a m t (fails e) = fails e
enqueue_fanout cfg a m t (answers messages) =
    if not a.enqueue_works
    then fails failed
    else answers (record {
      messages = messages;
      queue = enqueue a.now t.next_id (fanout_task cfg a.now m ∷ []) t.queue;
      next_id = t.next_id + 1;
    })

-- The body of the transaction.
unfoldable pub store : IngestConfig → IngestAnswers → Message → Tables → Answer Tables
unfolding enqueue_fanout
store cfg a m t = enqueue_fanout cfg a m t (create_message a.insert_works m t.messages)

-- How an error of the transaction is reported.
unfoldable pub store_error : RepoError → AppError
store_error conflict = new_conflict_error "a message with this eventId already exists"
store_error _ = new_internal_error

-- The advisory count, which decides nothing.
unfoldable pub matched : Option Snapshot → Message → ℕ
matched none m = 0
matched (some s) m = length (matching_endpoints s m.app_id m.event_type m.channels)

unfoldable pub accept :
    Option Snapshot → IngestInput → Message → Answer (Unit {0}) → Result IngestResult
unfolding matched store_error
accept snapshot i m (fails e) = err (store_error e)
accept snapshot i m (answers _) =
    ok (record { message = m; matched_endpoints = matched snapshot m; payload = i.payload })

-- From the identifier on. An id that carries no time is an internal error.
unfoldable pub ingest_message :
    Ksuid
    → IngestConfig
    → Codec
    → Option Snapshot
    → IngestAnswers
    → AppRef
    → IngestInput
    → Tables
    → Tables × Result IngestResult
ingest_message k cfg c snapshot a app i t = elim (new_at k "msg" a.entropy a.now) [
  | none ↦ (t, err new_internal_error)
  | some id ↦ elim (time_of k id) [
    | none ↦ (t, err new_internal_error)
    | some created_at ↦
        let m = message_of cfg c app i id created_at in
        let (after, answer) = within_transaction a.begins a.end (store cfg a m) t in
        (after, accept snapshot i m answer)
  ]
]

-- `Ingest`. The wake-up at its end is best effort, and changes nothing.
unfoldable pub ingest :
    Ksuid
    → IngestConfig
    → Codec
    → Resolver
    → IngestAnswers
    → IngestInput
    → Tables
    → Tables × Result IngestResult
ingest k cfg c r a i t = elim (resolve r i.org_id i.app_id_or_uid).0 [
  | err e ↦ (t, err e)
  | ok app ↦ elim (validate cfg c i) [
    | err e ↦ (t, err e)
    | ok _ ↦ ingest_message k cfg c r.snapshot a app i t
  ]
]

-- ===== src/Dispatch/Engine/Fanout.antt =====
-- internal/application/dispatch/engine.go, `handleFanout`: one deliver task for each endpoint that
-- matches the message. Go walks the set of partitions in any order; here it is that of the endpoints.
pub mod Kept
use huxio.Prelude.{
  ℕ, Bool, true, false, not, ◌&&◌, ◌||◌, Option, none, some, List, [], ◌∷◌, ◌++◌, map, String, ltb,
  leb, ◌==◌, if◌then◌else◌, any, codes,
}
use huxio.Utils.{fallback}
use huxio.Domain.Task.{DeliveryTask, Message, deliver, partition_key_for}
use huxio.Store.Queue.{EnqueueTask}
use huxio.Config.Snapshot.{Snapshot, Endpoint, matching_endpoints}
use huxio.Dispatch.Lease.{unique}
use huxio.Dispatch.Engine.{Engine, Effect, complete, expand, notify, defer_task}

-- What a look-up of a stored message answers: `ErrNotFound` stands apart from other errors.
pub data Lookup (A : Type 0) : Type 0 where
  found : A → Lookup A
  not_found : Lookup A
  load_fails : Lookup A

unfoldable pub deliver_task : Engine → ℕ → DeliveryTask → Endpoint → EnqueueTask
unfolding fallback
deliver_task e now task ep = record {
  partition_key = partition_key_for ep.row.id;
  pool = fallback ep.row.pool e.opts.pool;
  kind = deliver;
  org_id = task.org_id;
  app_id = task.app_id;
  msg_id = task.msg_id;
  msg_created_at = task.msg_created_at;
  endpoint_id = some ep.row.id;
  attempt = 0;
  trigger_type = task.trigger_type;
  visible_at = now;
}

pub record FanoutAnswers : Type 0 where
  pub snapshot : Option Snapshot
  pub message : Lookup Message
  pub now : ℕ
  pub transaction_fails : Bool

-- The transaction, and the wake-ups that follow it where it did not fail.
expansion : Bool → List EnqueueTask → ℕ → List ℕ → List Effect
expansion true tasks id partitions = expand false tasks id ∷ []
expansion false tasks id partitions = expand true tasks id ∷ map notify (unique partitions)

-- The end of the handler, for the endpoints that match.
expand_to : Engine → FanoutAnswers → DeliveryTask → Snapshot → List Endpoint → List Effect
unfolding expansion deliver_task
expand_to e a task s [] =
    if ltb s.built_at task.created_at then defer_task e task.id else complete task.id ∷ []
expand_to e a task s (ep ∷ eps) =
    expansion a.transaction_fails (map (deliver_task e a.now task) (ep ∷ eps)) task.id
      (map (λ x. partition_key_for x.row.id) (ep ∷ eps))

with_message : Engine → FanoutAnswers → DeliveryTask → Snapshot → Lookup Message → List Effect
unfolding expand_to
with_message e a task s not_found = complete task.id ∷ []
with_message e a task s load_fails = []
with_message e a task s (found m) =
    expand_to e a task s (matching_endpoints s task.app_id m.event_type m.channels)

with_snapshot : Engine → FanoutAnswers → DeliveryTask → Option Snapshot → List Effect
unfolding with_message
with_snapshot e a task none = []
with_snapshot e a task (some s) = with_message e a task s a.message

unfoldable pub handle_fanout : Engine → FanoutAnswers → DeliveryTask → List Effect
unfolding with_snapshot
handle_fanout e a task = with_snapshot e a task a.snapshot

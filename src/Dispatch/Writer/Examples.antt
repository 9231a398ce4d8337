-- ===== src/Dispatch/Writer/Examples.antt =====
-- A batch with one record, for a task of the queue.
use huxio.Prelude.{◌≡◌, ◌++◌, refl, true, false, some, none, List, [], ◌∷◌, pos, contains}
use huxio.Domain.Task.{scheduled}
use huxio.Domain.Attempt.{DeliveryAttempt, succeeded}
use huxio.Store.Queue.{ids, complete_many}
use huxio.Dispatch.Ports.{AttemptRecord, complete}
use huxio.Dispatch.Writer.{
  Tables, Answers, flush, finalize, retry_all, attempts_of, completed, new_writer, shutdown,
}
use huxio.Dispatch.Writer.Buffer.{
  Event, enqueues, receives, ticks, run, concat, accepted, shutdown_complete,
}
use huxio.Dispatch.Writer.Flush.{flush_durable}
use huxio.Fixtures.{queue}

abbrev attempt : DeliveryAttempt
attempt = record {
  id = "attempt";
  created_at = 500;
  org_id = "org";
  app_id = "app";
  msg_id = "msg";
  endpoint_id = "ep1";
  url = "https://example.com";
  status = succeeded;
  response_status_code = 200;
  response_body = [];
  response_duration_ms = 12;
  attempt_number = 1;
  trigger_type = scheduled;
  next_attempt_at = none;
}

abbrev delivered : AttemptRecord
delivered = record {
  attempt = attempt;
  task = some (record { task_id = 2; action = complete; delay = 0 });
}

abbrev tables : Tables
tables = record { attempts = []; queue = queue }

abbrev calm : Answers
calm = record { now = 600; copy_fails = false; retry_fails = λ id. false; complete_fails = false }

gone : contains (ids (flush calm (delivered ∷ []) tables).queue) 2 ≡ false
unfolding flush finalize retry_all completed complete_many
gone = refl

flush_durable_example :
    (calm.copy_fails ≡ false)
    × ((flush calm (delivered ∷ []) tables).attempts
        ≡ tables.attempts ++ attempts_of (delivered ∷ []))
    × (contains (completed (delivered ∷ [])) 2 ≡ true)
flush_durable_example = flush_durable calm (delivered ∷ []) tables 2 refl gone

abbrev traffic : List Event
traffic = enqueues delivered ∷ enqueues delivered ∷ receives ∷ ticks ∷ []

shutdown_complete_example :
    let w = new_writer (pos 3) (pos 2) (pos 5) in
    concat (shutdown (run w traffic)).flushed ≡ accepted w traffic
shutdown_complete_example = shutdown_complete (pos 3) (pos 2) (pos 5) traffic

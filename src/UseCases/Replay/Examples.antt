-- ===== src/UseCases/Replay/Examples.antt =====
-- A replay of one failed delivery of two.
use huxio.Prelude.{ℕ, ◌≡◌, refl, true, false, none, some, List, [], ◌∷◌, String}
use huxio.Domain.Ids.{Ksuid}
use huxio.Domain.Task.{scheduled}
use huxio.Domain.Attempt.{DeliveryAttempt, AttemptStatus, succeeded, failed}
use huxio.Store.Filters.{no_filter, passes_filter}
use huxio.Store.Attempts.{AttemptFilters, passes_attempt}
use huxio.Store.Attempts.Seen.{HasFailed}
use huxio.UseCases.{AppRef}
use huxio.UseCases.Replay.{ReplayAnswers, QueueTable, max_replay_batch, no_filters, replay_filtered}
use huxio.UseCases.Replay.Bounded.{Adds, start_of, replay_filtered-Adds}

abbrev attempt : String → String → ℕ → AttemptStatus → DeliveryAttempt
attempt id msg_id at status = record {
  id = id;
  created_at = at;
  org_id = "org";
  app_id = "app";
  msg_id = msg_id;
  endpoint_id = "ep1";
  url = "https://example.com";
  status = status;
  response_status_code = 500;
  response_body = [];
  response_duration_ms = 3;
  attempt_number = 0;
  trigger_type = scheduled;
  next_attempt_at = none;
}

abbrev log : List DeliveryAttempt
log =
    attempt "atmpt_1" "msg_1" 20 failed
    ∷ attempt "atmpt_2" "msg_2" 20 failed
    ∷ attempt "atmpt_3" "msg_2" 30 succeeded
    ∷ []

abbrev ksuid : Ksuid
ksuid = record { random_with_time = λ entropy at. none; parse = λ body. some 5 }

abbrev answered : ReplayAnswers
answered = record {
  now = 90;
  resolver = record { snapshot = none; app_repo = none; by_id_works = true; by_uid_works = true };
  endpoints = [];
  look_ups = record {
    now = 90;
    by_id_works = true;
    by_uid_works = true;
    write_works = true;
    disable_works = true;
    clear_works = true;
    random = none;
    new_id = "";
  };
  messages = [];
  message_works = true;
  attempts = log;
  list_works = true;
  enqueue_works = λ msg_id. true;
}

abbrev app : AppRef
app = record { id = "app"; org_id = "org" }

abbrev in_window : AttemptFilters
in_window = record no_filters {
  created_at = some (record no_filter { gte = some 10; lt = some 40 });
}

abbrev empty : QueueTable
empty = record { rows = []; next_id = 1 }

replay_filtered-Adds_example :
    let (q', result, e) = replay_filtered ksuid app "default" answered in_window empty in
    Adds (HasFailed in_window log) empty (start_of answered in_window) max_replay_batch q' result
replay_filtered-Adds_example = replay_filtered-Adds ksuid app "default" answered in_window empty

late : passes_attempt in_window (attempt "atmpt_4" "msg_1" 50 succeeded) ≡ false
unfolding passes_attempt passes_filter
late = refl

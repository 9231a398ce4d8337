-- ===== src/Fixtures.antt =====
-- The data that the examples share: one application with two endpoints, its tasks and its worker.
use huxio.Prelude.{ℕ, ◌*◌, true, false, Option, none, some, List, [], ◌∷◌, ◌++◌, String, pos}
use huxio.Prelude.Dict.{Dict}
use huxio.Domain.Endpoint.{hmac256, Application as ApplicationRow, Endpoint as EndpointRow}
use huxio.Domain.Task.{DeliveryTask, TaskKind, deliver, fanout, scheduled, Message}
use huxio.Domain.Signing.{Crypto, standard}
use huxio.Retry.{Policy, default_schedule, no_jitter}
use huxio.Store.Queue.{ClaimRequest, Rows}
use huxio.Config.Snapshot.{Endpoint, Snapshot, SnapshotData, build_snapshot}
use huxio.Dispatch.Breaker.{Breaker, BreakerState, RawBreakerOptions, second}
use huxio.Dispatch.Lane.{Lane, RawLaneOptions}
use huxio.Dispatch.Ports.{DeliveryResult}
use huxio.Dispatch.Engine.{Engine, EngineOptions}
use huxio.Dispatch.Engine.Fanout.{Lookup, found, FanoutAnswers}
use huxio.Dispatch.Engine.Deliver.{DeliverAnswers}

abbrev pub task : ℕ → TaskKind → DeliveryTask
task id kind = record {
  id = id;
  partition_key = 7;
  pool = "default";
  kind = kind;
  org_id = "org";
  app_id = "app";
  msg_id = "msg";
  msg_created_at = 100;
  endpoint_id = some "ep1";
  attempt = 0;
  trigger_type = scheduled;
  visible_at = 100;
  locked_by = none;
  locked_until = none;
  created_at = 100;
  deleted_at = none;
}

abbrev pub queue : Rows
queue = task 1 fanout ∷ task 2 deliver ∷ []

abbrev pub claim_by : String → ClaimRequest
claim_by owner = record {
  pool = "default";
  partitions = 7 ∷ [];
  owner_id = owner;
  lock_ttl = 90 * second;
  limit = 10;
}

abbrev pub row : String → List String → EndpointRow
row id event_types = record {
  id = id;
  app_id = "app";
  org_id = "org";
  uid = none;
  url = "https://example.com";
  description = "";
  version = pos 1;
  rate_limit = none;
  event_types = event_types;
  channels = [];
  headers = "";
  secret = record { sealed = "sealed"; expires_at = none };
  secret_type = hmac256;
  old_secrets = [];
  pool = "";
  first_failure_at = none;
  disabled_at = none;
  created_at = 0;
  updated_at = 0;
  deleted_at = none;
}

abbrev pub app : ApplicationRow
app = record {
  id = "app";
  org_id = "org";
  uid = none;
  name = "an application";
  rate_limit = none;
  metadata = "{}";
  created_at = 0;
  updated_at = 0;
  deleted_at = none;
}

abbrev pub data_set : SnapshotData
data_set = record {
  organizations = [];
  applications = app ∷ [];
  endpoints = row "ep1" ("invoice.paid" ∷ []) ∷ row "ep2" [] ∷ [];
  event_types = [];
}

abbrev pub opens : String → Option (List ℕ)
opens s = some (1 ∷ 2 ∷ 3 ∷ [])

abbrev pub no_headers : String → Option (Dict String)
no_headers s = none

abbrev pub snapshot : Snapshot
snapshot = (build_snapshot opens no_headers 200 data_set).0

abbrev pub message : Message
message = record { id = "msg"; event_type = "invoice.paid"; channels = [] }

abbrev pub policy : Policy
policy = record { schedule = default_schedule; jitter = no_jitter }

abbrev pub options : EngineOptions
options = record {
  worker_id = "worker";
  pool = "default";
  claim_batch_size = 100;
  max_inflight = 2;
  poll_interval = 250_000_000;
  lock_ttl = 90 * second;
  request_timeout = 30 * second;
  response_body_limit = 8192;
  stale_snapshot_delay = 250_000_000;
  lane_wait_timeout = 2 * second;
  lane_requeue_delay = second;
  quarantine_pool = "quarantine";
  quarantine_after = 0;
  disable_after = 5 * second;
  failing_notify_attempt = pos 4;
}

abbrev pub engine : Engine
engine = record {
  opts = options;
  policy = policy;
  scheme = standard;
  invalidator = true;
  endpoint_state = true;
  operational = true;
}

abbrev pub raw_breaker : RawBreakerOptions
raw_breaker = record { failure_threshold = pos 2; cooldown = pos 10; max_cooldown = pos 100 }

abbrev pub breaker : BreakerState → Breaker
breaker state = record {
  opts = record { failure_threshold = 2; cooldown = 10; max_cooldown = 100 };
  state = state;
  consecutive_fails = 2;
  cooldown = 10;
  opened_at = 50;
  retry_at = 60;
  probe_in_flight = false;
}

abbrev pub raw_lane : RawLaneOptions
raw_lane = record {
  initial_concurrency = pos 1;
  max_concurrency = pos 2;
  successes_per_increase = pos 2;
  rate_limit = pos 0;
  max_waiters = pos 3;
  breaker = raw_breaker;
}

abbrev pub lane : BreakerState → Lane
lane state = record {
  endpoint_id = "ep1";
  opts = record {
    initial_concurrency = 1;
    max_concurrency = 2;
    successes_per_increase = 2;
    rate_limit = 0;
    max_waiters = 3;
  };
  breaker = breaker state;
  concurrency = 1;
  in_flight = 0;
  waiting = 0;
  waiters = [];
  successes = 0;
  last_used = 0;
  failing_notice = false;
  failure_start = some (second);
  disabled = false;
  quarantined = false;
}

abbrev pub response : ℕ → DeliveryResult
response status_code = record {
  status_code = status_code;
  body = [];
  duration = second;
  err = none;
  timeout = false;
  refused = false;
  retry_after = none;
}

-- Stand-ins for the cryptography, with outputs of the right shape.
abbrev pub crypto : Crypto
crypto = record {
  encode = λ bs. "signature";
  decode = λ bs. none;
  hmac_sha256 = λ key signed. key;
  ed25519_sign = λ key signed. key;
  from_seed = λ seed. seed ++ seed;
}

abbrev pub fanout_answers : FanoutAnswers
fanout_answers = record {
  snapshot = some snapshot;
  message = found message;
  now = 300;
  transaction_fails = false;
}

abbrev pub answers : Lookup (List ℕ) → DeliverAnswers
answers payload = record {
  snapshot = some snapshot;
  started = 1000;
  finished = 2000;
  limiter_allows = true;
  limiter_fails = false;
  channel = 1;
  rounds = [];
  slot_fails = false;
  payload = payload;
  decoded = some (42 ∷ []);
  crypto = crypto;
  unix = 1700000000;
  result = response 500;
  meanwhile = λ l. l;
  fails = record { first_failure = false; disable = false; move = false };
  attempt_id = some "attempt";
}

-- What the snapshot holds of the first endpoint.
abbrev pub built_endpoint : Endpoint
built_endpoint = record {
  row = row "ep1" ("invoice.paid" ∷ []);
  secrets = record { key = 1 ∷ 2 ∷ 3 ∷ []; secret_type = hmac256; expires_at = none } ∷ [];
  custom_headers = [];
}

-- ===== src/Dispatch/Engine/Attempt.antt =====
-- internal/application/dispatch/engine.go: `buildHeaders` and `recordAttempt`, and `Truncate` of
-- internal/utils/str.go. The signer's headers are the argument of
-- `build_headers`.
pub mod Retries
pub mod Signed
use Prim.Native.Char.{Char, code}
use Prim.Native.String
use huxio.Prelude.{
  ℕ, zero, suc, ◌+◌, ◌/◌, Bool, true, false, not, ◌||◌, Option, none, some, List, [], ◌∷◌, ◌++◌,
  String, leb, ◌==◌, if◌then◌else◌, get_elem?, take, length, or_else,
}
use huxio.Prelude.Dict.{Dict, put}
use huxio.Domain.Task.{DeliveryTask, retryable}
use huxio.Domain.Attempt.{DeliveryAttempt, AttemptStatus, pending_retry, failed}
use huxio.Domain.Attempt
use huxio.Retry.{delay}
use huxio.Config.Snapshot.{Endpoint}
use huxio.Dispatch.Lane.{Lane}
use huxio.Dispatch.Ports.{DeliveryResult, succeeded, TaskOutcome, AttemptRecord}
use huxio.Dispatch.Ports
use huxio.Dispatch.Engine.{Engine, Effect, sink}
use huxio.Dispatch.Engine.Health.{emit_attempt_events}

-- The letter at the place where the character stands among the others.
translate : String → String → Char → Char
translate (String.◌∷◌ u us) (String.◌∷◌ l ls) c = if code u == code c then l else translate us ls c
translate _ _ c = c

-- `strings.ToLower`, for the ASCII letters that a header name has.
to_lower : String → String
unfolding translate
to_lower String.[] = String.[]
to_lower (String.◌∷◌ c s) =
    String.◌∷◌ (translate "ABCDEFGHIJKLMNOPQRSTUVWXYZ" "abcdefghijklmnopqrstuvwxyz" c) (to_lower s)

custom_headers : Dict String → Dict String → Dict String
unfolding to_lower
custom_headers [] m = m
custom_headers ((name, value) ∷ hs) m = custom_headers hs (put m (to_lower name) value)

put_all : Dict String → Dict String → Dict String
put_all [] m = m
put_all ((name, value) ∷ hs) m = put_all hs (put m name value)

-- `buildHeaders`, after the signing.
unfoldable pub build_headers : Dict String → Endpoint → Dict String
unfolding custom_headers put_all
build_headers signed ep = put_all signed (custom_headers ep.custom_headers [])

-- `utils.Truncate` cuts before a byte that starts a character.
is_utf8_start : ℕ → Bool
is_utf8_start b = not (b / 64 == 2)

cut_at : List ℕ → ℕ → ℕ
unfolding is_utf8_start
cut_at bs zero = 0
cut_at bs (suc n) =
    let rest = cut_at bs n in
    if is_utf8_start (or_else (get_elem? bs (suc n)) 0) then suc n else rest

unfoldable pub truncate : List ℕ → ℕ → List ℕ
unfolding cut_at
truncate bs n = if (n == 0) || leb (length bs) n then bs else take (cut_at bs n) bs

-- `responseBody`
response_body : DeliveryResult → List ℕ
response_body r = if length r.body == 0 then or_else r.err [] else r.body

-- How an attempt ends: its status, the time of the next one, and what becomes of its task.
pub record Verdict : Type 0 where
  pub status : AttemptStatus
  pub next_attempt_at : Option ℕ
  pub outcome : TaskOutcome

unfoldable pub finished_with : AttemptStatus → ℕ → Verdict
finished_with status id = record {
  status = status;
  next_attempt_at = none;
  outcome = record { task_id = id; action = Ports.complete; delay = 0 };
}

-- The `default` branch, with the policy's answer.
unfoldable pub retried : ℕ → ℕ → Option ℕ → Verdict
unfolding finished_with
retried now id none = finished_with failed id
retried now id (some d) = record {
  status = pending_retry;
  next_attempt_at = some (now + d);
  outcome = record { task_id = id; action = Ports.retry; delay = d };
}

-- The `switch` of `recordAttempt`.
unfoldable pub verdict : Engine → ℕ → DeliveryTask → DeliveryResult → Verdict
unfolding finished_with retried
verdict e now task r =
    if succeeded r
    then finished_with Attempt.succeeded task.id
    else if not (retryable task.trigger_type)
    then finished_with failed task.id
    else retried now task.id (
        delay e.policy task.attempt (record {
          status_code = r.status_code;
          timeout = r.timeout;
          retry_after = r.retry_after;
        }))

unfoldable pub attempt_of :
    Engine → String → ℕ → DeliveryTask → Endpoint → DeliveryResult → Verdict → DeliveryAttempt
unfolding response_body truncate
attempt_of e id now task ep r v = record {
  id = id;
  created_at = now;
  org_id = task.org_id;
  app_id = task.app_id;
  msg_id = task.msg_id;
  endpoint_id = ep.row.id;
  url = ep.row.url;
  status = v.status;
  response_status_code = r.status_code;
  response_body = truncate (response_body r) e.opts.response_body_limit;
  response_duration_ms = r.duration / 1_000_000;
  attempt_number = task.attempt + 1;
  trigger_type = task.trigger_type;
  next_attempt_at = v.next_attempt_at;
}

-- The lane of the endpoint, if lanes are configured, and the calls.
abbrev pub Result : Type 0
Result = Option Lane × List Effect

abbrev pub after : List Effect → Result → Result
after fs r = (r.0, fs ++ r.1)

-- `recordAttempt`, by the attempt's id, which may fail to be made.
unfoldable pub record_attempt :
    Engine → Option String → ℕ → DeliveryTask → Endpoint → DeliveryResult → Option Lane → Result
unfolding attempt_of
record_attempt e none now task ep r lane = (lane, [])
record_attempt e (some id) now task ep r lane =
    let v = verdict e now task r in
    let attempt = attempt_of e id now task ep r v in
    let (lane', events) = emit_attempt_events e task ep attempt lane in
    (lane', events ++ sink (record { attempt = attempt; task = some v.outcome }) ∷ [])

-- ===== src/Dispatch/Engine/Deliver.antt =====
-- internal/application/dispatch/engine.go: `handleDeliver` and `handle`. The channels that the lane's
-- `Release` closes are the other goroutines' and are left out here. The engine's in-flight slot, which
-- is given back while a delivery waits for its lane, is an argument: whether it can be taken again.
pub mod Disposal
pub mod Requests
pub mod Probe
use huxio.Prelude.{
  ℕ, Bool, true, false, not, Option, none, some, List, [], ◌∷◌, ◌++◌, String, ltb, if◌then◌else◌,
}
use huxio.Prelude.Dict.{Dict, get}
use huxio.Domain.Endpoint.{deliverable}
use huxio.Domain.Task.{DeliveryTask, TaskKind, fanout, deliver, unknown}
use huxio.Retry.{delay}
use huxio.Domain.Signing.{Crypto, Key, headers}
use huxio.Config.Snapshot.{Secret, Snapshot, Endpoint}
use huxio.Dispatch.Lane.{Lane, allow, try_acquire, acquire, release, on_success, on_failure}
use huxio.Dispatch.Ports.{DeliveryResult, succeeded}
use huxio.Dispatch.Engine.{
  Engine, Effect, DeliveryRequest, complete, retry, request, defer_task, defer_for_saturation,
}
use huxio.Dispatch.Engine.Fanout.{
  Lookup, found, not_found, load_fails, FanoutAnswers, handle_fanout,
}
use huxio.Dispatch.Engine.Health.{EndpointFails, apply_health_transitions}
use huxio.Dispatch.Engine.Attempt.{Result, after, build_headers, record_attempt}

pub record DeliverAnswers : Type 0 where
  pub snapshot : Option Snapshot
  -- the clock before the request and after it
  pub started : ℕ
  pub finished : ℕ
  -- the limiter's answers, this goroutine's channel, and what the others do while it waits
  pub limiter_allows : Bool
  pub limiter_fails : Bool
  pub channel : ℕ
  pub rounds : List (Lane → Lane)
  pub slot_fails : Bool
  -- the payload as it is stored and decoded, and what signs it at that second since 1970
  pub payload : Lookup (List ℕ)
  pub decoded : Option (List ℕ)
  pub crypto : Crypto
  pub unix : ℕ
  -- the request, and what the others do to the lane meanwhile
  pub result : DeliveryResult
  pub meanwhile : Lane → Lane
  pub fails : EndpointFails
  pub attempt_id : Option String

-- The lane's own reaction to the result.
react : ℕ → DeliveryResult → Lane → Lane
react now r l = if succeeded r then (on_success l).0 else on_failure now r.refused l

-- What follows the request.
conclude : Engine → DeliverAnswers → DeliveryTask → Endpoint → Option Lane → Result
unfolding record_attempt react
conclude e a task ep none = record_attempt e a.attempt_id a.finished task ep a.result none
conclude e a task ep (some l) =
    let reacted = react a.finished a.result (a.meanwhile l) in
    let (l', health) =
      apply_health_transitions e a.fails ep a.finished (succeeded a.result) reacted in
    after health (record_attempt e a.attempt_id a.finished task ep a.result (some l'))

-- The loop of `buildHeaders` over the endpoint's secrets.
keys_of : List Secret → List Key
keys_of [] = []
keys_of (s ∷ ss) = record { secret = s.key; key_type = s.secret_type } ∷ keys_of ss

unfoldable pub signed_headers :
    Engine → DeliverAnswers → DeliveryTask → Endpoint → List ℕ → Option (Dict String)
unfolding keys_of
signed_headers e a task ep body =
    headers a.crypto e.scheme task.msg_id a.unix body (keys_of ep.secrets)

request_to : Engine → Endpoint → List ℕ → Dict String → DeliveryRequest
request_to e ep body signed = record {
  endpoint_id = ep.row.id;
  url = ep.row.url;
  body = body;
  headers = build_headers signed ep;
  timeout = e.opts.request_timeout;
}

send :
    Engine → DeliverAnswers → DeliveryTask → Endpoint → List ℕ → Dict String → Option Lane → Result
unfolding conclude request_to
send e a task ep body signed lane =
    after (request (request_to e ep body signed) ∷ []) (conclude e a task ep lane)

sign :
    Engine
    → DeliverAnswers
    → DeliveryTask
    → Endpoint
    → List ℕ
    → Option (Dict String)
    → Option Lane
    → Result
unfolding send
sign e a task ep body none lane = (lane, complete task.id ∷ [])
sign e a task ep body (some signed) lane = send e a task ep body signed lane

decode : Engine → DeliverAnswers → DeliveryTask → Endpoint → Option (List ℕ) → Option Lane → Result
unfolding sign signed_headers
decode e a task ep none lane = (lane, complete task.id ∷ [])
decode e a task ep (some body) lane = sign e a task ep body (signed_headers e a task ep body) lane

-- From the loading of the payload on.
load : Engine → DeliverAnswers → DeliveryTask → Endpoint → Lookup (List ℕ) → Option Lane → Result
unfolding decode
load e a task ep not_found lane = (lane, complete task.id ∷ [])
load e a task ep load_fails lane = (lane, [])
load e a task ep (found stored) lane = decode e a task ep a.decoded lane

-- `defer lane.Release()`
released : Result → Result
released (none, fs) = (none, fs)
released (some l, fs) = (some (release l).0, fs)

-- `requeueForBreaker`, by the policy's answer.
requeue : DeliveryTask → Option ℕ → List Effect
requeue task none = complete task.id ∷ []
requeue task (some d) = retry task.id d ∷ []

unfoldable pub requeue_for_breaker : Engine → DeliveryTask → List Effect
unfolding requeue
requeue_for_breaker e task =
    requeue task (
      delay e.policy task.attempt (record { status_code = 0; timeout = false; retry_after = none }))

-- The lane is full: wait for a slot of it, and then for one of the engine's.
wait : Engine → DeliverAnswers → DeliveryTask → Endpoint → Lane → Result
unfolding load released
wait e a task ep l =
    let (l', got) = acquire a.started a.channel a.limiter_fails a.rounds l in
    if not got
    then (some l', defer_for_saturation e task.id)
    else if a.slot_fails
    then (some (release l').0, defer_for_saturation e task.id)
    else released (load e a task ep a.payload (some l'))

through_lane : Engine → DeliverAnswers → DeliveryTask → Endpoint → Option Lane → Result
unfolding wait requeue_for_breaker
through_lane e a task ep none = load e a task ep a.payload none
through_lane e a task ep (some l) =
    let (l', allowed) = allow a.started l in
    let (l'', got) = try_acquire a.started a.limiter_allows l' in
    if not allowed
    then (some l', requeue_for_breaker e task)
    else if got
    then released (load e a task ep a.payload (some l''))
    else wait e a task ep l''

to_endpoint :
    Engine → DeliverAnswers → DeliveryTask → Snapshot → Option Lane → Option Endpoint → Result
unfolding through_lane
to_endpoint e a task s lane none =
    (lane, if ltb s.built_at task.created_at then defer_task e task.id else complete task.id ∷ [])
to_endpoint e a task s lane (some ep) =
    if not (deliverable ep.row)
    then (lane, complete task.id ∷ [])
    else through_lane e a task ep lane

in_snapshot :
    Engine → DeliverAnswers → DeliveryTask → String → Option Lane → Option Snapshot → Result
unfolding to_endpoint
in_snapshot e a task id lane none = (lane, [])
in_snapshot e a task id lane (some s) = to_endpoint e a task s lane (get s.endpoints id)

for_id : Engine → DeliverAnswers → DeliveryTask → Option Lane → Option String → Result
unfolding in_snapshot
for_id e a task lane none = (lane, complete task.id ∷ [])
for_id e a task lane (some id) = in_snapshot e a task id lane a.snapshot

-- `handleDeliver`
unfoldable pub handle_deliver : Engine → DeliverAnswers → DeliveryTask → Option Lane → Result
unfolding for_id
handle_deliver e a task lane = for_id e a task lane task.endpoint_id

-- `handle`, by the task's kind.
handle_kind :
    Engine → FanoutAnswers → DeliverAnswers → DeliveryTask → Option Lane → TaskKind → Result
unfolding handle_deliver
handle_kind e f a task lane fanout = (lane, handle_fanout e f task)
handle_kind e f a task lane deliver = handle_deliver e a task lane
handle_kind e f a task lane (unknown n) = (lane, complete task.id ∷ [])

unfoldable pub handle :
    Engine → FanoutAnswers → DeliverAnswers → DeliveryTask → Option Lane → Result
unfolding handle_kind
handle e f a task lane = handle_kind e f a task lane task.kind

-- ===== src/Dispatch/Engine/Deliver/Disposal.antt =====
-- What becomes of the row of a task that was handled.
use huxio.Prelude.{
  ℕ, ◌≡◌, refl, ap, Bool, true, false, not, Option, none, some, List, [], ◌∷◌, ◌++◌, String, arith,
  if◌then◌else◌, ◌⊎◌, inl, inr,
}
use huxio.Prelude.Dict.{Dict, get}
use huxio.Domain.Endpoint.{deliverable}
use huxio.Domain.Task.{DeliveryTask}
use huxio.Config.Snapshot.{Snapshot, Endpoint}
use huxio.Dispatch.Lane.{Lane, allow, try_acquire, acquire, release}
use huxio.Dispatch.Ports.{DeliveryResult, succeeded}
use huxio.Dispatch.Engine.{Engine, Effect, complete, sink, defer_task, defer_for_saturation}
use huxio.Dispatch.Engine.Disposals.{
  weight, is_request, deed, deeds, settled, settles, settles-asides,
}
use huxio.Dispatch.Engine.Fanout.{Lookup, found, not_found, load_fails}
use huxio.Dispatch.Engine.Health.Disposals.{
  apply_health_transitions-deeds, emit_attempt_events-deeds,
}
use huxio.Dispatch.Engine.Attempt.Retries.{again, over, verdict-Agrees}
use huxio.Dispatch.Engine.Attempt.{Result, record_attempt, verdict, attempt_of}
use huxio.Dispatch.Engine.Deliver.{
  DeliverAnswers, react, conclude, signed_headers, send, sign, decode, load, released, requeue,
  requeue_for_breaker, wait, through_lane, to_endpoint, in_snapshot, for_id, handle_deliver,
}

-- Why a row may be left locked, until the maintenance loop rescues it.
pub data IsLeft (a : DeliverAnswers) : Type 0 where
  no_snapshot : a.snapshot ≡ none → IsLeft a
  no_payload : a.payload ≡ load_fails → IsLeft a
  no_id : a.attempt_id ≡ none → IsLeft a

-- The calls decide of the task's row, once, and of no other; or of none, for a reason.
abbrev pub IsDisposed : DeliverAnswers → ℕ → List Effect → Type 0
IsDisposed a id fs = (settles fs ≡ id ∷ []) ⊎ ((settles fs ≡ []) × IsLeft a)

-- Calls that leave the queue alone stand before.
prefix-IsDisposed :
    (a : DeliverAnswers) (id : ℕ) (fs gs : List Effect)
    → deeds fs ≡ 0
    → IsDisposed a id gs
    → IsDisposed a id (fs ++ gs)
prefix-IsDisposed a id fs gs h (inl one) = inl (rw (settles-asides fs gs h) one)
prefix-IsDisposed a id fs gs h (inr (zero, left)) = inr (rw (settles-asides fs gs h) zero, left)

-- The outcome of an attempt names the task.
verdict-task_id :
    (e : Engine) (now : ℕ) (task : DeliveryTask) (r : DeliveryResult)
    → (verdict e now task r).outcome.task_id ≡ task.id
verdict-task_id e now task r = elim (verdict-Agrees e now task r) [
  | again d status at outcome ↦ ap (λ o. o.task_id) outcome
  | over status at outcome ↦ ap (λ o. o.task_id) outcome
]

record_attempt-IsDisposed :
    (e : Engine) (a : DeliverAnswers) (id : Option String) (now : ℕ) (task : DeliveryTask)
    (ep : Endpoint) (r : DeliveryResult) (lane : Option Lane)
    → a.attempt_id ≡ id
    → IsDisposed a task.id (record_attempt e id now task ep r lane).1
unfolding record_attempt settles settled deeds deed is_request weight
record_attempt-IsDisposed e a none now task ep r lane h = inr (refl, no_id h)
record_attempt-IsDisposed e a (some id) now task ep r lane h =
    prefix-IsDisposed a task.id _ (sink _ ∷ [])
      (emit_attempt_events-deeds e task ep (attempt_of e id now task ep r (verdict e now task r))
        lane)
      (inl (ap (λ n. n ∷ []) (verdict-task_id e now task r)))

conclude-IsDisposed :
    (e : Engine) (a : DeliverAnswers) (task : DeliveryTask) (ep : Endpoint) (lane : Option Lane)
    → IsDisposed a task.id (conclude e a task ep lane).1
unfolding conclude
conclude-IsDisposed e a task ep none =
    record_attempt-IsDisposed e a a.attempt_id a.finished task ep a.result none refl
conclude-IsDisposed e a task ep (some l) =
    prefix-IsDisposed a task.id _ _
      (apply_health_transitions-deeds e a.fails ep a.finished (succeeded a.result)
        (react a.finished a.result (a.meanwhile l)))
      (record_attempt-IsDisposed e a a.attempt_id a.finished task ep a.result _ refl)

sign-IsDisposed :
    (e : Engine) (a : DeliverAnswers) (task : DeliveryTask) (ep : Endpoint) (body : List ℕ)
    (signed : Option (Dict String)) (lane : Option Lane)
    → IsDisposed a task.id (sign e a task ep body signed lane).1
unfolding sign send settles settled deeds deed is_request weight
sign-IsDisposed e a task ep body none lane = inl refl
sign-IsDisposed e a task ep body (some signed) lane = conclude-IsDisposed e a task ep lane

decode-IsDisposed :
    (e : Engine) (a : DeliverAnswers) (task : DeliveryTask) (ep : Endpoint)
    (decoded : Option (List ℕ)) (lane : Option Lane)
    → IsDisposed a task.id (decode e a task ep decoded lane).1
unfolding decode settles settled deeds deed is_request weight
decode-IsDisposed e a task ep none lane = inl refl
decode-IsDisposed e a task ep (some body) lane =
    sign-IsDisposed e a task ep body (signed_headers e a task ep body) lane

load-IsDisposed :
    (e : Engine) (a : DeliverAnswers) (task : DeliveryTask) (ep : Endpoint)
    (payload : Lookup (List ℕ)) (lane : Option Lane)
    → a.payload ≡ payload
    → IsDisposed a task.id (load e a task ep payload lane).1
unfolding load settles settled deeds deed is_request weight
load-IsDisposed e a task ep not_found lane h = inl refl
load-IsDisposed e a task ep load_fails lane h = inr (refl, no_payload h)
load-IsDisposed e a task ep (found stored) lane h = decode-IsDisposed e a task ep a.decoded lane

released-IsDisposed :
    (a : DeliverAnswers) (id : ℕ) (r : Result)
    → IsDisposed a id r.1
    → IsDisposed a id (released r).1
unfolding released
released-IsDisposed a id (none, fs) h = h
released-IsDisposed a id (some l, fs) h = h

saturated-settles : (e : Engine) (id : ℕ) → settles (defer_for_saturation e id) ≡ id ∷ []
unfolding defer_for_saturation settles settled deeds deed is_request weight
saturated-settles e id = refl

if-IsDisposed :
    (a : DeliverAnswers) (id : ℕ) (b : Bool) (r s : Result)
    → IsDisposed a id r.1
    → IsDisposed a id s.1
    → IsDisposed a id (if b then r else s).1
if-IsDisposed a id true r s h k = h
if-IsDisposed a id false r s h k = k

wait-IsDisposed :
    (e : Engine) (a : DeliverAnswers) (task : DeliveryTask) (ep : Endpoint) (l : Lane)
    → IsDisposed a task.id (wait e a task ep l).1
unfolding wait
wait-IsDisposed e a task ep l =
    let (l', got) = acquire a.started a.channel a.limiter_fails a.rounds l in
    let saturated = defer_for_saturation e task.id in
    let loaded = load e a task ep a.payload (some l') in
    if-IsDisposed a task.id (not got) (some l', saturated)
      (if a.slot_fails then (some (release l').0, saturated) else released loaded)
      (inl (saturated-settles e task.id))
      (if-IsDisposed a task.id a.slot_fails (some (release l').0, saturated) (released loaded)
        (inl (saturated-settles e task.id))
        (released-IsDisposed a task.id loaded
          (load-IsDisposed e a task ep a.payload (some l') refl)))

requeue-settles : (task : DeliveryTask) (d : Option ℕ) → settles (requeue task d) ≡ task.id ∷ []
unfolding requeue settles settled deeds deed is_request weight
requeue-settles task none = refl
requeue-settles task (some d) = refl

through_lane-IsDisposed :
    (e : Engine) (a : DeliverAnswers) (task : DeliveryTask) (ep : Endpoint) (lane : Option Lane)
    → IsDisposed a task.id (through_lane e a task ep lane).1
unfolding through_lane requeue_for_breaker
through_lane-IsDisposed e a task ep none = load-IsDisposed e a task ep a.payload none refl
through_lane-IsDisposed e a task ep (some l) =
    let (l', allowed) = allow a.started l in
    let (l'', got) = try_acquire a.started a.limiter_allows l' in
    let loaded = load e a task ep a.payload (some l'') in
    let queued = requeue_for_breaker e task in
    let waited = wait e a task ep l'' in
    if-IsDisposed a task.id (not allowed) (some l', queued)
      (if got then released loaded else waited) (inl (requeue-settles task _))
      (if-IsDisposed a task.id got (released loaded) waited
        (released-IsDisposed a task.id loaded
          (load-IsDisposed e a task ep a.payload (some l'') refl))
        (wait-IsDisposed e a task ep l''))

to_endpoint-IsDisposed :
    (e : Engine) (a : DeliverAnswers) (task : DeliveryTask) (s : Snapshot) (lane : Option Lane)
    (ep : Option Endpoint)
    → IsDisposed a task.id (to_endpoint e a task s lane ep).1
unfolding to_endpoint defer_task settles settled deeds deed is_request weight
to_endpoint-IsDisposed e a task s lane none = inl (ground arith)
to_endpoint-IsDisposed e a task s lane (some ep) =
    if-IsDisposed a task.id (not (deliverable ep.row)) (lane, complete task.id ∷ [])
      (through_lane e a task ep lane) (inl refl) (through_lane-IsDisposed e a task ep lane)

in_snapshot-IsDisposed :
    (e : Engine) (a : DeliverAnswers) (task : DeliveryTask) (id : String) (lane : Option Lane)
    (s : Option Snapshot)
    → a.snapshot ≡ s
    → IsDisposed a task.id (in_snapshot e a task id lane s).1
unfolding in_snapshot settles
in_snapshot-IsDisposed e a task id lane none h = inr (refl, no_snapshot h)
in_snapshot-IsDisposed e a task id lane (some s) h =
    to_endpoint-IsDisposed e a task s lane (get s.endpoints id)

for_id-IsDisposed :
    (e : Engine) (a : DeliverAnswers) (task : DeliveryTask) (lane : Option Lane)
    (id : Option String)
    → IsDisposed a task.id (for_id e a task lane id).1
unfolding for_id settles settled deeds deed is_request weight
for_id-IsDisposed e a task lane none = inl refl
for_id-IsDisposed e a task lane (some id) = in_snapshot-IsDisposed e a task id lane a.snapshot refl

-- On every path the calls of the handler decide exactly once what becomes of the task's row, and of
-- no other row: it is completed, retried or deferred, or the attempt writer gets a record whose outcome
-- is the task's. The exceptions make no such call: there is no configuration yet, the payload cannot be
-- loaded, or no id can be made for the attempt. Whether such a call then succeeds is not claimed.
pub handle_deliver-IsDisposed :
    (e : Engine) (a : DeliverAnswers) (task : DeliveryTask) (lane : Option Lane)
    → IsDisposed a task.id (handle_deliver e a task lane).1
unfolding handle_deliver
handle_deliver-IsDisposed e a task lane = for_id-IsDisposed e a task lane task.endpoint_id

-- ===== src/Dispatch/Engine/Deliver/Requests.antt =====
-- Which requests a handler makes.
use huxio.Prelude.{
  ℕ, ◌≡◌, refl, Bool, true, false, not, Option, none, some, List, [], ◌∷◌, String, arith, ltb, All,
  All-append, if◌then◌else◌,
}
use huxio.Prelude.Dict.{Dict, get}
use huxio.Domain.Endpoint.{deliverable}
use huxio.Domain.Task.{DeliveryTask}
use huxio.Config.Snapshot.{Snapshot, Endpoint}
use huxio.Dispatch.Lane.{Lane, allow, try_acquire, acquire, release}
use huxio.Dispatch.Ports.{DeliveryResult, succeeded}
use huxio.Dispatch.Engine.{
  Engine, Effect, DeliveryRequest, complete, request, defer, invalidate, defer_task,
  defer_for_saturation,
}
use huxio.Dispatch.Engine.Disposals.{weight, is_request, deed, deeds, deeds-All}
use huxio.Dispatch.Engine.Fanout.{Lookup, found, not_found, load_fails}
use huxio.Dispatch.Engine.Health.Disposals.{
  apply_health_transitions-deeds, emit_attempt_events-deeds,
}
use huxio.Dispatch.Engine.Attempt.{Result, build_headers, record_attempt, verdict, attempt_of}
use huxio.Dispatch.Engine.Deliver.{
  DeliverAnswers, react, conclude, request_to, signed_headers, send, sign, decode, load, released,
  requeue, requeue_for_breaker, wait, through_lane, to_endpoint, in_snapshot, for_id,
  handle_deliver,
}

-- The breaker of the lane, if there is one, admits a delivery.
pub admits : ℕ → Option Lane → Bool
admits now none = true
admits now (some l) = (allow now l).1

-- The endpoint that a request goes to.
pub record IsTarget (e : Engine) (a : DeliverAnswers) (task : DeliveryTask) (lane : Option Lane)
    (r : DeliveryRequest) : Type 0 where
  pub snapshot : Snapshot
  pub id : String
  pub ep : Endpoint
  pub current : a.snapshot ≡ some snapshot
  pub addressed : task.endpoint_id ≡ some id
  pub known : get snapshot.endpoints id ≡ some ep
  pub live : deliverable ep.row ≡ true
  pub same_url : r.url ≡ ep.row.url
  pub signed : Dict String
  pub authentic : signed_headers e a task ep r.body ≡ some signed
  pub signed_last : r.headers ≡ build_headers signed ep
  pub admitted : admits a.started lane ≡ true

-- Every call but a request is permitted.
pub IsPermitted : Engine → DeliverAnswers → DeliveryTask → Option Lane → Effect → Type 0
IsPermitted e a task lane (request r) = IsTarget e a task lane r
IsPermitted e a task lane _ = Unit

-- What the requests to an endpoint have to be.
module _ (P : Effect → Type 0) (plain : (f : Effect) → is_request f ≡ false → P f) where
  asides : (fs : List Effect) → deeds fs ≡ 0 → All P fs
  unfolding deed is_request weight
  asides fs h = deeds-All P fs (λ f none. plain f (ground (arith, none))) h

  record_attempt-All :
      (e : Engine) (id : Option String) (now : ℕ) (task : DeliveryTask) (ep : Endpoint)
      (r : DeliveryResult) (lane : Option Lane)
      → All P (record_attempt e id now task ep r lane).1
  unfolding record_attempt is_request
  record_attempt-All e none now task ep r lane = tt
  record_attempt-All e (some id) now task ep r lane =
      let v = verdict e now task r in
      All-append P _ _
        (asides _ (emit_attempt_events-deeds e task ep (attempt_of e id now task ep r v) lane))
        (plain _ refl, tt)

  conclude-All :
      (e : Engine) (a : DeliverAnswers) (task : DeliveryTask) (ep : Endpoint) (lane : Option Lane)
      → All P (conclude e a task ep lane).1
  unfolding conclude
  conclude-All e a task ep none = record_attempt-All e a.attempt_id a.finished task ep a.result none
  conclude-All e a task ep (some l) =
      All-append P _ _
        (asides _ (
          apply_health_transitions-deeds e a.fails ep a.finished (succeeded a.result)
            (react a.finished a.result (a.meanwhile l))))
        (record_attempt-All e a.attempt_id a.finished task ep a.result _)

  module _ (e : Engine) (a : DeliverAnswers) (task : DeliveryTask) (ep : Endpoint)
      (mine : (body : List ℕ) (signed : Dict String)
        → signed_headers e a task ep body ≡ some signed
        → P (request (request_to e ep body signed))) where
    sign-All :
        (body : List ℕ) (signed : Option (Dict String)) (lane : Option Lane)
        → signed_headers e a task ep body ≡ signed
        → All P (sign e a task ep body signed lane).1
    unfolding sign send is_request
    sign-All body none lane h = (plain _ refl, tt)
    sign-All body (some signed) lane h = (mine body signed h, conclude-All e a task ep lane)

    decode-All :
        (decoded : Option (List ℕ)) (lane : Option Lane) → All P (decode e a task ep decoded lane).1
    unfolding decode is_request
    decode-All none lane = (plain _ refl, tt)
    decode-All (some body) lane = sign-All body (signed_headers e a task ep body) lane refl

    load-All :
        (payload : Lookup (List ℕ)) (lane : Option Lane) → All P (load e a task ep payload lane).1
    unfolding load is_request
    load-All not_found lane = (plain _ refl, tt)
    load-All load_fails lane = tt
    load-All (found stored) lane = decode-All a.decoded lane

    released-All : (r : Result) → All P r.1 → All P (released r).1
    unfolding released
    released-All (none, fs) h = h
    released-All (some l, fs) h = h

    if-All : (b : Bool) (r s : Result) → All P r.1 → All P s.1 → All P (if b then r else s).1
    if-All true r s h k = h
    if-All false r s h k = k

    saturated-All : All P (defer_for_saturation e task.id)
    unfolding defer_for_saturation is_request
    saturated-All = (plain _ refl, tt)

    wait-All : (l : Lane) → All P (wait e a task ep l).1
    unfolding wait
    wait-All l =
        let (l', got) = acquire a.started a.channel a.limiter_fails a.rounds l in
        let saturated = defer_for_saturation e task.id in
        let loaded = load e a task ep a.payload (some l') in
        if-All (not got) (some l', saturated)
          (if a.slot_fails then (some (release l').0, saturated) else released loaded) saturated-All
          (if-All a.slot_fails (some (release l').0, saturated) (released loaded) saturated-All
            (released-All loaded (load-All a.payload (some l'))))

    -- Past the breaker.
    admitted-All :
        (l : Lane) (got : Bool)
        → All P
            (if got then released (load e a task ep a.payload (some l)) else wait e a task ep l).1
    admitted-All l got =
        if-All got (released (load e a task ep a.payload (some l))) (wait e a task ep l)
          (released-All (load e a task ep a.payload (some l)) (load-All a.payload (some l)))
          (wait-All l)

requeue-All :
    (P : Effect → Type 0) (plain : (f : Effect) → is_request f ≡ false → P f) (task : DeliveryTask)
    (d : Option ℕ)
    → All P (requeue task d)
unfolding requeue is_request
requeue-All P plain task none = (plain _ refl, tt)
requeue-All P plain task (some d) = (plain _ refl, tt)

plain-IsPermitted :
    (e : Engine) (a : DeliverAnswers) (task : DeliveryTask) (lane : Option Lane) (f : Effect)
    → is_request f ≡ false
    → IsPermitted e a task lane f
unfolding IsPermitted is_request
plain-IsPermitted e a task lane (request r) h = absurd (cc)
plain-IsPermitted e a task lane _ h = tt

through_lane-IsPermitted :
    (e : Engine) (a : DeliverAnswers) (task : DeliveryTask) (ep : Endpoint) (lane : Option Lane)
    → (admits a.started lane ≡ true
        → (body : List ℕ) (signed : Dict String) → signed_headers e a task ep body ≡ some signed
        → IsPermitted e a task lane (request (request_to e ep body signed)))
    → All (IsPermitted e a task lane) (through_lane e a task ep lane).1
unfolding through_lane admits requeue_for_breaker
through_lane-IsPermitted e a task ep none target =
    load-All (IsPermitted e a task none) (plain-IsPermitted e a task none) e a task ep (target refl)
      a.payload none
through_lane-IsPermitted e a task ep (some l) target = cases (allow a.started l).1 refl
  where
    cases :
        (allowed : Bool)
        → (allow a.started l).1 ≡ allowed
        → All
            (IsPermitted e a task (some l))
            (if not allowed
              then (some (allow a.started l).0, requeue_for_breaker e task)
              else if (try_acquire a.started a.limiter_allows (allow a.started l).0).1
              then released (
                  load e a task ep a.payload
                    (some (try_acquire a.started a.limiter_allows (allow a.started l).0).0))
              else wait e a task ep
                  (try_acquire a.started a.limiter_allows (allow a.started l).0).0).1
    cases true h =
        let (l', got) = try_acquire a.started a.limiter_allows (allow a.started l).0 in
        admitted-All (IsPermitted e a task (some l)) (plain-IsPermitted e a task (some l)) e a task
          ep (target h) l' got
    cases false h =
        requeue-All (IsPermitted e a task (some l)) (plain-IsPermitted e a task (some l)) task _

defer_task-IsPermitted :
    (e : Engine) (a : DeliverAnswers) (task : DeliveryTask) (lane : Option Lane) (id : ℕ)
    → All (IsPermitted e a task lane) (defer_task e id)
unfolding defer_task IsPermitted
defer_task-IsPermitted e a task lane id = cases e.invalidator
  where
    cases :
        (b : Bool)
        → All (IsPermitted e a task lane) (
            if b
            then invalidate ∷ defer id e.opts.stale_snapshot_delay ∷ []
            else defer id e.opts.stale_snapshot_delay ∷ [])
    cases true = (tt, (tt, tt))
    cases false = (tt, tt)

to_endpoint-IsPermitted :
    (e : Engine) (a : DeliverAnswers) (task : DeliveryTask) (s : Snapshot) (lane : Option Lane)
    (id : String) (ep : Option Endpoint)
    → a.snapshot ≡ some s
    → task.endpoint_id ≡ some id
    → get s.endpoints id ≡ ep
    → All (IsPermitted e a task lane) (to_endpoint e a task s lane ep).1
unfolding to_endpoint is_request IsPermitted
to_endpoint-IsPermitted e a task s lane id none current addressed known =
    missing (ltb s.built_at task.created_at)
  where
    missing :
        (b : Bool)
        → All
            (IsPermitted e a task lane)
            (if b then defer_task e task.id else complete task.id ∷ [])
    missing true = defer_task-IsPermitted e a task lane task.id
    missing false = (tt, tt)
to_endpoint-IsPermitted e a task s lane id (some ep) current addressed known =
    cases (deliverable ep.row) refl
  where
    cases :
        (live : Bool)
        → deliverable ep.row ≡ live
        → All
            (IsPermitted e a task lane)
            (if not live then (lane, complete task.id ∷ []) else through_lane e a task ep lane).1
    cases true live = through_lane-IsPermitted e a task ep lane (λ admitted body signed authentic.
        record {
          snapshot = s;
          id = id;
          ep = ep;
          current = current;
          addressed = addressed;
          known = known;
          live = live;
          same_url = refl;
          signed = signed;
          authentic = authentic;
          signed_last = refl;
          admitted = admitted;
        })
    cases false live = (tt, tt)

in_snapshot-IsPermitted :
    (e : Engine) (a : DeliverAnswers) (task : DeliveryTask) (lane : Option Lane) (id : String)
    (s : Option Snapshot)
    → a.snapshot ≡ s
    → task.endpoint_id ≡ some id
    → All (IsPermitted e a task lane) (in_snapshot e a task id lane s).1
unfolding in_snapshot
in_snapshot-IsPermitted e a task lane id none current addressed = tt
in_snapshot-IsPermitted e a task lane id (some s) current addressed =
    to_endpoint-IsPermitted e a task s lane id (get s.endpoints id) current addressed refl

for_id-IsPermitted :
    (e : Engine) (a : DeliverAnswers) (task : DeliveryTask) (lane : Option Lane)
    (id : Option String)
    → task.endpoint_id ≡ id
    → All (IsPermitted e a task lane) (for_id e a task lane id).1
unfolding for_id IsPermitted
for_id-IsPermitted e a task lane none addressed = (tt, tt)
for_id-IsPermitted e a task lane (some id) addressed =
    in_snapshot-IsPermitted e a task lane id a.snapshot refl addressed

-- A request goes only to the endpoint of the task, as the current configuration has it, and only if
-- that is neither disabled nor deleted and the breaker of its lane admits the delivery. It carries
-- the signer's headers for its body, over the endpoint's own.
pub handle_deliver-IsPermitted :
    (e : Engine) (a : DeliverAnswers) (task : DeliveryTask) (lane : Option Lane)
    → All (IsPermitted e a task lane) (handle_deliver e a task lane).1
unfolding handle_deliver
handle_deliver-IsPermitted e a task lane = for_id-IsPermitted e a task lane task.endpoint_id refl

-- ===== src/Dispatch/Engine/Deliver/Probe.antt =====
-- The breaker's probe, where no request follows it.
use huxio.Prelude.{
  ℕ, ◌+◌, ◌≤◌, ◌<◌, ◌≡◌, refl, Bool, true, none, some, List, [], ◌∷◌, String, arith,
}
use huxio.Prelude.Dict.{get}
use huxio.Domain.Endpoint.{deliverable}
use huxio.Domain.Task.{DeliveryTask}
use huxio.Config.Snapshot.{Snapshot, Endpoint}
use huxio.Dispatch.Breaker.{Breaker, opened, half_open}
use huxio.Dispatch.Breaker.Transitions.{admitted, allow_cooled, ProbeOut-blocks}
use huxio.Dispatch.Lane.{Lane, allow, try_acquire, has_limiter, touch, wake_waiters, release}
use huxio.Dispatch.Engine.{Engine, complete}
use huxio.Dispatch.Engine.Fanout.{not_found}
use huxio.Dispatch.Engine.Attempt.{Result}
use huxio.Dispatch.Engine.Deliver.{
  DeliverAnswers, load, released, through_lane, to_endpoint, in_snapshot, for_id, handle_deliver,
}

-- A lane whose breaker has cooled down, with a slot that is free.
pub record IsCooled (now : ℕ) (l : Lane) : Type 0 where
  pub is_open : l.breaker.state ≡ opened
  pub cooled : l.breaker.retry_at ≤ now
  pub slot_free : l.in_flight < l.concurrency
  pub unlimited : l.opts.rate_limit ≡ 0

-- The task was completed and nothing else was called, and the lane that is left admits no delivery,
-- whatever the times of those that ask, until a result is reported.
pub IsProbing : ℕ → Result → Type 0
IsProbing id (none, fs) = ⊥
IsProbing id (some l, fs) =
    (fs ≡ complete id ∷ []) × ((times : List ℕ) → admitted l.breaker times ≡ 0)

-- The breaker after the probe was let out.
abbrev probing : Breaker → Breaker
probing b = record b { state = half_open; probe_in_flight = true }

try_acquire_free :
    (now : ℕ) (limiter : Bool) (l : Lane)
    → l.in_flight < l.concurrency
    → l.opts.rate_limit ≡ 0
    → try_acquire now limiter l ≡ (record l { last_used = now; in_flight = l.in_flight + 1 }, true)
unfolding try_acquire has_limiter touch
try_acquire_free now limiter l free unlimited = ground arith

released-IsProbing :
    (l : Lane) (id : ℕ)
    → l.breaker.state ≡ half_open
    → l.breaker.probe_in_flight ≡ true
    → IsProbing id (released (some l, complete id ∷ []))
unfolding IsProbing released release wake_waiters
released-IsProbing l id h k = (refl, λ times. (ProbeOut-blocks l.breaker times (h, k)).0)

through_lane-IsProbing :
    (e : Engine) (a : DeliverAnswers) (task : DeliveryTask) (ep : Endpoint) (l : Lane)
    → IsCooled a.started l
    → a.payload ≡ not_found
    → IsProbing task.id (through_lane e a task ep (some l))
unfolding through_lane allow load
through_lane-IsProbing e a task ep l cool gone =
    let admitted = record l { breaker = probing l.breaker } in
    rw
      (
        allow_cooled l.breaker a.started cool.is_open cool.cooled,
        try_acquire_free a.started a.limiter_allows admitted cool.slot_free cool.unlimited,
        gone,
      )
      (released-IsProbing _ task.id refl refl)

to_endpoint-IsProbing :
    (e : Engine) (a : DeliverAnswers) (task : DeliveryTask) (s : Snapshot) (ep : Endpoint)
    (l : Lane)
    → deliverable ep.row ≡ true
    → IsCooled a.started l
    → a.payload ≡ not_found
    → IsProbing task.id (to_endpoint e a task s (some l) (some ep))
unfolding to_endpoint
to_endpoint-IsProbing e a task s ep l live cool gone =
    rw live (through_lane-IsProbing e a task ep l cool gone)

-- A probe that is not sent is lost: where the payload is gone once the breaker of the endpoint's lane has
-- let the probe out, the only call of the handler completes the task, and the lane that it leaves
-- refuses every delivery that asks after it, at whatever times, unless a result is reported. The lane
-- had a free slot and no rate limit.
pub handle_deliver-IsProbing :
    (e : Engine) (a : DeliverAnswers) (task : DeliveryTask) (s : Snapshot) (id : String)
    (ep : Endpoint) (l : Lane)
    → task.endpoint_id ≡ some id
    → a.snapshot ≡ some s
    → get s.endpoints id ≡ some ep
    → deliverable ep.row ≡ true
    → IsCooled a.started l
    → a.payload ≡ not_found
    → IsProbing task.id (handle_deliver e a task (some l))
unfolding handle_deliver for_id in_snapshot
handle_deliver-IsProbing e a task s id ep l addressed current known live cool gone =
    rw (addressed, current, known)
      (to_endpoint-IsProbing e (record a { snapshot = some s })
        (record task { endpoint_id = some id }) s ep l live cool gone)

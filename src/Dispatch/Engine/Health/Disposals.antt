-- ===== src/Dispatch/Engine/Health/Disposals.antt =====
-- The changes of an endpoint's health leave the queue alone.
use huxio.Prelude.{ℕ, ◌≡◌, refl, Bool, true, false, Option, none, some, List, ◌++◌, arith}
use huxio.Domain.Task.{DeliveryTask}
use huxio.Domain.Attempt.{DeliveryAttempt, AttemptStatus, succeeded, pending_retry, failed}
use huxio.Config.Snapshot.{Endpoint}
use huxio.Dispatch.Lane.{
  Lane, mark_disabled, mark_quarantined, begin_failure_run, end_failure_run, failure_run_start,
}
use huxio.Dispatch.Engine.{Engine, Effect, set_pool, set_first_failure, invalidation}
use huxio.Dispatch.Engine.Disposals.{
  weight, is_request, deed, deeds, deeds-append, invalidation-deeds,
}
use huxio.Dispatch.Engine.Health.{
  EndpointFails, written, disable, judge, after_failure, after_success, apply_health_transitions,
  attempt_events, attempt_event, emit_attempt_events, emit_endpoint_disabled,
}

written-deeds : (e : Engine) (b : Bool) (f : Effect) → deed f ≡ 0 → deeds (written e b f) ≡ 0
unfolding deeds written
written-deeds e true f h = omega (arith, h)
written-deeds e false f h = omega (arith, h, invalidation-deeds e)

emit_endpoint_disabled-deeds :
    (e : Engine) (ep : Endpoint) → deeds (emit_endpoint_disabled e ep) ≡ 0
unfolding deeds emit_endpoint_disabled deed weight is_request
emit_endpoint_disabled-deeds e ep = ground arith

disable-deeds : (e : Engine) (b : Bool) (ep : Endpoint) (now : ℕ) → deeds (disable e b ep now) ≡ 0
unfolding deeds disable deed weight is_request
disable-deeds e true ep now = refl
disable-deeds e false ep now = omega (
  arith,
  deeds-append (invalidation e) (emit_endpoint_disabled e ep),
  invalidation-deeds e,
  emit_endpoint_disabled-deeds e ep,
)

judge-deeds :
    (e : Engine) (fails : EndpointFails) (ep : Endpoint) (now start : ℕ) (l : Lane)
    → deeds (judge e fails ep now start l).1 ≡ 0
unfolding judge mark_disabled mark_quarantined deeds deed weight is_request
judge-deeds e fails ep now start l = ground (
  arith,
  disable-deeds e fails.disable ep now,
  written-deeds e fails.move (set_pool ep.row.id e.opts.quarantine_pool) refl,
)

after_success-deeds :
    (e : Engine) (fails : EndpointFails) (ep : Endpoint) (l : Lane)
    → deeds (after_success e fails ep l).1 ≡ 0
unfolding after_success end_failure_run deeds deed weight is_request
after_success-deeds e fails ep l =
    ground (arith, written-deeds e fails.first_failure (set_first_failure ep.row.id none) refl)

append-none : (fs gs : List Effect) → deeds fs ≡ 0 → deeds gs ≡ 0 → deeds (fs ++ gs) ≡ 0
append-none fs gs h k = omega (arith, deeds-append fs gs, h, k)

after_failure-deeds :
    (e : Engine) (fails : EndpointFails) (ep : Endpoint) (now : ℕ) (start : Option ℕ) (l : Lane)
    → deeds (after_failure e fails ep now start l).1 ≡ 0
unfolding after_failure begin_failure_run deeds deed weight is_request
after_failure-deeds e fails ep now (some start) l = judge-deeds e fails ep now start l
after_failure-deeds e fails ep now none l =
    append-none _ (judge e fails ep now now (begin_failure_run now l).0).1
      (ground
        (arith, written-deeds e fails.first_failure (set_first_failure ep.row.id (some now)) refl))
      (judge-deeds e fails ep now now (begin_failure_run now l).0)

pub apply_health_transitions-deeds :
    (e : Engine) (fails : EndpointFails) (ep : Endpoint) (now : ℕ) (ok : Bool) (l : Lane)
    → deeds (apply_health_transitions e fails ep now ok l).1 ≡ 0
unfolding apply_health_transitions deeds
apply_health_transitions-deeds e fails ep now ok l =
    let run = failure_run_start ep.row.first_failure_at l in
    ground (arith, after_success-deeds e fails ep l, after_failure-deeds e fails ep now run.1 run.0)

attempt_events-deeds :
    (e : Engine) (task : DeliveryTask) (ep : Endpoint) (number : ℕ) (status : AttemptStatus)
    (lane : Option Lane)
    → deeds (attempt_events e task ep number status lane).1 ≡ 0
unfolding attempt_events attempt_event deeds deed weight is_request
attempt_events-deeds e task ep number succeeded none = refl
attempt_events-deeds e task ep number succeeded (some l) = ground arith
attempt_events-deeds e task ep number failed none = refl
attempt_events-deeds e task ep number failed (some l) = refl
attempt_events-deeds e task ep number pending_retry none = ground arith
attempt_events-deeds e task ep number pending_retry (some l) = ground arith

pub emit_attempt_events-deeds :
    (e : Engine) (task : DeliveryTask) (ep : Endpoint) (attempt : DeliveryAttempt)
    (lane : Option Lane)
    → deeds (emit_attempt_events e task ep attempt lane).1 ≡ 0
unfolding emit_attempt_events deeds
emit_attempt_events-deeds e task ep attempt lane =
    ground (arith, attempt_events-deeds e task ep attempt.attempt_number attempt.status lane)

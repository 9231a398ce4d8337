-- ===== src/Dispatch/Engine/Health.antt =====
-- internal/application/dispatch/engine.go: what a delivery changes of its endpoint's health, and the
-- operational events about it. `EndpointFails` says which writes of the endpoint's row fail. The
-- lane is the one that `laneFor` answers; it is not evicted while a delivery holds a slot of it.
pub mod Writes
pub mod Slow
pub mod Disposals
use huxio.Prelude.{
  ℕ, ◌+◌, ◌-◌, Bool, true, false, not, ◌&&◌, ◌||◌, Option, none, some, List, [], ◌∷◌, ◌++◌, String,
  str_eq, ltb, leb, ◌==◌, if◌then◌else◌, is_set, ℤ, pos, negsuc,
}
use huxio.Domain.Endpoint.{disabled}
use huxio.Domain.Task.{DeliveryTask}
use huxio.Domain.Attempt.{DeliveryAttempt, AttemptStatus, succeeded, pending_retry, failed}
use huxio.Config.Snapshot.{Endpoint}
use huxio.Dispatch.Breaker.{open_for}
use huxio.Dispatch.Lane.{
  Lane, failure_run_start, begin_failure_run, end_failure_run, mark_disabled, mark_quarantined,
  mark_failing_notice, clear_failing_notice,
}
use huxio.Dispatch.Ports.{
  OperationalEvent, EventType, attempt_failing, attempt_recovered, attempt_exhausted,
  endpoint_disabled,
}
use huxio.Dispatch.Engine.{
  Engine, Effect, set_first_failure, set_disabled, set_pool, emit, invalidation,
}

pub record EndpointFails : Type 0 where
  pub first_failure : Bool
  pub disable : Bool
  pub move : Bool

-- The effects so far, with the lane that a step leaves.
abbrev pub Run : Type 0
Run = Lane × List Effect

abbrev before : List Effect → Run → Run
before fs r = (r.0, fs ++ r.1)

-- A write of the endpoint's row, and the invalidation that follows it where it did not fail.
unfoldable pub written : Engine → Bool → Effect → List Effect
written e true f = f ∷ []
written e false f = f ∷ invalidation e

-- `emitEndpointDisabled`; the details are left out.
unfoldable pub emit_endpoint_disabled : Engine → Endpoint → List Effect
emit_endpoint_disabled e ep =
    if e.operational
    then emit (record {
      event = endpoint_disabled;
      org_id = ep.row.org_id;
      app_id = ep.row.app_id;
      endpoint_id = ep.row.id;
      msg_id = "";
    })
      ∷ []
    else []

-- The two ends of the automatic disabling, after `MarkDisabled`.
unfoldable pub disable : Engine → Bool → Endpoint → ℕ → List Effect
unfolding written emit_endpoint_disabled
disable e true ep now = set_disabled ep.row.id now ∷ []
disable e false ep now = set_disabled ep.row.id now ∷ invalidation e ++ emit_endpoint_disabled e ep

unfoldable pub quarantines : Engine → Endpoint → ℕ → Lane → Bool
quarantines e ep now l =
    ltb 0 e.opts.quarantine_after
    && not (str_eq ep.row.pool e.opts.quarantine_pool)
    && leb e.opts.quarantine_after (open_for now l.breaker)

unfoldable pub disables : Engine → Endpoint → ℕ → Bool
disables e ep failing_for =
    ltb 0 e.opts.disable_after && leb e.opts.disable_after failing_for && not (disabled ep.row)

-- The part of the handler that follows the start of the run.
unfoldable pub judge : Engine → EndpointFails → Endpoint → ℕ → ℕ → Lane → Run
unfolding disable disables quarantines written
judge e fails ep now start l =
    if disables e ep (now - start)
    then (let (l', marked) = mark_disabled l in
        (l', if marked then disable e fails.disable ep now else []))
    else if quarantines e ep now l
    then (let (l', marked) = mark_quarantined l in
        (
          l',
          if marked then written e fails.move (set_pool ep.row.id e.opts.quarantine_pool) else [],
        ))
    else (l, [])

-- A failure, with the start of its run if there is one.
unfoldable pub after_failure : Engine → EndpointFails → Endpoint → ℕ → Option ℕ → Lane → Run
unfolding judge written
after_failure e fails ep now (some start) l = judge e fails ep now start l
after_failure e fails ep now none l =
    let (l', began) = begin_failure_run now l in
    before
      (if began then written e fails.first_failure (set_first_failure ep.row.id (some now)) else [])
      (judge e fails ep now now l')

unfoldable pub after_success : Engine → EndpointFails → Endpoint → Lane → Run
unfolding written
after_success e fails ep l =
    let (l', ended) = end_failure_run l in
    (
      l',
      if ended || is_set ep.row.first_failure_at
          then written e fails.first_failure (set_first_failure ep.row.id none)
          else [],
    )

-- `applyHealthTransitions`, where the endpoint has a lane.
unfoldable pub apply_health_transitions : Engine → EndpointFails → Endpoint → ℕ → Bool → Lane → Run
unfolding after_failure after_success
apply_health_transitions e fails ep now ok l =
    if not e.endpoint_state
    then (l, [])
    else if ok
    then after_success e fails ep l
    else (let (l', start) = failure_run_start ep.row.first_failure_at l in
        after_failure e fails ep now start l')

attempt_event : DeliveryTask → Endpoint → EventType → Effect
attempt_event task ep event = emit (record {
  event = event;
  org_id = task.org_id;
  app_id = task.app_id;
  endpoint_id = ep.row.id;
  msg_id = task.msg_id;
})

-- `attempt.AttemptNumber == e.opts.FailingNotifyAttempt`
notifies : ℤ → ℕ → Bool
notifies (pos n) attempt = attempt == n
notifies (negsuc n) attempt = false

-- `emitAttemptEvents` by the status of the attempt, with the lane if there is one.
attempt_events :
    Engine → DeliveryTask → Endpoint → ℕ → AttemptStatus → Option Lane → Option Lane × List Effect
unfolding attempt_event notifies
attempt_events e task ep number succeeded none = (none, [])
attempt_events e task ep number succeeded (some l) =
    let (l', sent) = clear_failing_notice l in
    (some l', if sent then attempt_event task ep attempt_recovered ∷ [] else [])
attempt_events e task ep number failed none = (none, attempt_event task ep attempt_exhausted ∷ [])
attempt_events e task ep number failed (some l) =
    (some (clear_failing_notice l).0, attempt_event task ep attempt_exhausted ∷ [])
attempt_events e task ep number pending_retry none = (
  none,
  if notifies e.opts.failing_notify_attempt number
      then attempt_event task ep attempt_failing ∷ []
      else [],
)
attempt_events e task ep number pending_retry (some l) =
    if notifies e.opts.failing_notify_attempt number
    then (let (l', first) = mark_failing_notice l in
        (some l', if first then attempt_event task ep attempt_failing ∷ [] else []))
    else (some l, [])

unfoldable pub emit_attempt_events :
    Engine → DeliveryTask → Endpoint → DeliveryAttempt → Option Lane → Option Lane × List Effect
unfolding attempt_events
emit_attempt_events e task ep attempt lane =
    if e.operational
    then attempt_events e task ep attempt.attempt_number attempt.status lane
    else (lane, [])

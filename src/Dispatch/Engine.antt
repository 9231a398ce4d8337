-- ===== src/Dispatch/Engine.antt =====
-- internal/application/dispatch/engine.go: the delivery engine.
-- A handler is modelled by the calls that it makes, in order: an `Effect` is one call of a port. What
-- the ports answer, the clock included, is an argument; a call that fails is still an effect. The
-- functions on texts of internal/utils/str.go stand here too. Logging and metrics are left out.
pub mod Disposals
pub mod Claim
pub mod Fanout
pub mod Health
pub mod Attempt
pub mod Deliver
mod Examples
use huxio.Prelude.{
  ℕ, zero, ◌+◌, ◌*◌, ◌<◌, ◌≡◌, Bool, true, false, Option, none, some, List, [], ◌∷◌, String, str_eq,
  ltb, leb, ◌==◌, if◌then◌else◌, ℤ, pos, positive_or, pos_part, ltb_ℤ, arith,
}
use huxio.Prelude.Dict.{Dict}
use huxio.Domain.Signing.{HeaderScheme}
use huxio.Retry.{Policy, seconds, minutes}
use huxio.Store.Queue.{EnqueueTask, Rows}
use huxio.Store.Queue
use huxio.Dispatch.Ports.{AttemptRecord, OperationalEvent}

pub record RawEngineOptions : Type 0 where
  pub worker_id : String
  pub pool : String
  pub claim_batch_size : ℤ
  pub max_inflight : ℤ
  pub poll_interval : ℤ
  pub lock_ttl : ℤ
  pub request_timeout : ℤ
  pub response_body_limit : ℤ
  pub stale_snapshot_delay : ℤ
  pub lane_wait_timeout : ℤ
  pub lane_requeue_delay : ℤ
  pub quarantine_pool : String
  pub quarantine_after : ℤ
  pub disable_after : ℤ
  pub failing_notify_attempt : ℤ

-- The options after the defaults are applied. `quarantine_after` and `disable_after` are 0 where the
-- source tests for a positive duration.
pub record EngineOptions : Type 0 where
  pub worker_id : String
  pub pool : String
  pub claim_batch_size : ℕ
  pub max_inflight : ℕ
  pub poll_interval : ℕ
  pub lock_ttl : ℕ
  pub request_timeout : ℕ
  pub response_body_limit : ℕ
  pub stale_snapshot_delay : ℕ
  pub lane_wait_timeout : ℕ
  pub lane_requeue_delay : ℕ
  pub quarantine_pool : String
  pub quarantine_after : ℕ
  pub disable_after : ℕ
  pub failing_notify_attempt : ℤ

-- `if s == "" { s = d }`
abbrev pub text_or : String → String → String
text_or s d = if str_eq s "" then d else s

notify_attempt_or : ℤ → ℤ
notify_attempt_or (pos zero) = pos 4
notify_attempt_or n = n

-- The defaults of `NewEngine`; `new_id` is what `ids.New` answers.
unfoldable pub engine_options : String → RawEngineOptions → EngineOptions
unfolding notify_attempt_or
engine_options new_id raw =
    let timeout = positive_or raw.request_timeout (seconds 30) in
    record {
      worker_id = text_or raw.worker_id new_id;
      pool = text_or raw.pool "default";
      claim_batch_size = positive_or raw.claim_batch_size 100;
      max_inflight = positive_or raw.max_inflight 2000;
      poll_interval = positive_or raw.poll_interval 250_000_000;
      lock_ttl =
          if ltb_ℤ (pos timeout) raw.lock_ttl then pos_part raw.lock_ttl else timeout + minutes 1;
      request_timeout = timeout;
      response_body_limit = positive_or raw.response_body_limit 8192;
      stale_snapshot_delay = positive_or raw.stale_snapshot_delay 250_000_000;
      lane_wait_timeout = positive_or raw.lane_wait_timeout (seconds 2);
      lane_requeue_delay = positive_or raw.lane_requeue_delay (seconds 1);
      quarantine_pool = text_or raw.quarantine_pool "quarantine";
      quarantine_after = pos_part raw.quarantine_after;
      disable_after = pos_part raw.disable_after;
      failing_notify_attempt = notify_attempt_or raw.failing_notify_attempt;
    }

-- The dependencies that a handler reads, and which of the optional ones are set. `scheme` is the
-- signer's.
pub record Engine : Type 0 where
  pub opts : EngineOptions
  pub policy : Policy
  pub scheme : HeaderScheme
  pub invalidator : Bool
  pub endpoint_state : Bool
  pub operational : Bool

-- `DeliveryRequest`
pub record DeliveryRequest : Type 0 where
  pub endpoint_id : String
  pub url : String
  pub body : List ℕ
  pub headers : Dict String
  pub timeout : ℕ

pub data Effect : Type 0 where
  complete : ℕ → Effect
  retry : ℕ → ℕ → Effect
  defer : ℕ → ℕ → Effect
  -- The transaction that enqueues the deliver tasks and completes the fan-out, and its outcome.
  expand : Bool → List EnqueueTask → ℕ → Effect
  notify : ℕ → Effect
  invalidate : Effect
  request : DeliveryRequest → Effect
  set_first_failure : String → Option ℕ → Effect
  set_disabled : String → ℕ → Effect
  set_pool : String → String → Effect
  emit : OperationalEvent → Effect
  sink : AttemptRecord → Effect

-- `invalidate`
unfoldable pub invalidation : Engine → List Effect
invalidation e = if e.invalidator then invalidate ∷ [] else []

-- `deferTask`
unfoldable pub defer_task : Engine → ℕ → List Effect
unfolding invalidation
defer_task e id =
    if e.invalidator
    then invalidate ∷ defer id e.opts.stale_snapshot_delay ∷ []
    else defer id e.opts.stale_snapshot_delay ∷ []

-- `deferForSaturation`
unfoldable pub defer_for_saturation : Engine → ℕ → List Effect
defer_for_saturation e id = defer id e.opts.lane_requeue_delay ∷ []

-- What one call does to the queue, if it succeeds; `next` is the first unused id.
perform : ℕ → ℕ → Effect → Rows → Rows
perform now next (complete id) rows = Queue.complete id rows
perform now next (retry id delay) rows = Queue.retry now id delay rows
perform now next (defer id delay) rows = Queue.defer now id delay rows
perform now next (expand true tasks id) rows = Queue.complete id (Queue.enqueue now next tasks rows)
perform now next _ rows = rows

-- The calls of a handler, one after the other, and whether each takes effect. Where the answers end,
-- the process has died.
unfoldable pub perform_all : ℕ → ℕ → List Bool → List Effect → Rows → Rows
unfolding perform
perform_all now next [] effects rows = rows
perform_all now next (ok ∷ oks) [] rows = rows
perform_all now next (ok ∷ oks) (f ∷ fs) rows =
    perform_all now next oks fs (if ok then perform now next f rows else rows)

-- The lock of a claim lasts longer than a request may. Where the option is left to its default, it
-- also outlasts the context of the whole delivery, which is thirty seconds longer.
pub engine_options-lock_ttl :
    (new_id : String) (raw : RawEngineOptions)
    → let opts = engine_options new_id raw in
      (if ltb_ℤ (pos opts.request_timeout) raw.lock_ttl
        then opts.request_timeout
        else opts.request_timeout + seconds 30)
      < opts.lock_ttl
unfolding engine_options
engine_options-lock_ttl new_id raw = ground arith

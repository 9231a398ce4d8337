-- ===== src/Dispatch/Lane.antt =====
-- internal/application/dispatch/lane.go: the bounded concurrency of one endpoint.
-- Each function is one critical section of the lane's mutex, or one atomic or one health-mutex
-- operation. `Acquire` is four of them: `acquire_begin`, then `try_slot` for each round of its loop,
-- `cancel_waiter` where the context ends first, and `acquire_end`, its deferred function. A waiter is
-- the channel that a goroutine waits on, here a number; `woken` are the channels that were closed.
-- The rate limiter is golang.org/x/time/rate: its answers are arguments. `now` is `opts.Now()`.
pub mod Aimd
pub mod Waiters
mod Examples
use huxio.Prelude.{
  ℕ, ◌+◌, ◌-◌, ◌*◌, ◌/◌, min, max, Bool, true, false, not, ◌&&◌, ◌||◌, Option, none, some, List, [],
  ◌∷◌, ◌++◌, String, ltb, leb, ◌==◌, if◌then◌else◌, is_set, ℤ, positive_or, pos_part, take, drop,
  length,
}
use huxio.Dispatch.Breaker
use huxio.Dispatch.Breaker.{Breaker, RawBreakerOptions, new_breaker}

pub record LaneOptions : Type 0 where
  pub initial_concurrency : ℕ
  pub max_concurrency : ℕ
  pub successes_per_increase : ℕ
  pub rate_limit : ℕ
  pub max_waiters : ℕ

-- The options as they are given, with Go's signed values.
pub record RawLaneOptions : Type 0 where
  pub initial_concurrency : ℤ
  pub max_concurrency : ℤ
  pub successes_per_increase : ℤ
  pub rate_limit : ℤ
  pub max_waiters : ℤ
  pub breaker : RawBreakerOptions

pub record Lane : Type 0 where
  pub endpoint_id : String
  pub opts : LaneOptions
  pub breaker : Breaker
  pub concurrency : ℕ
  pub in_flight : ℕ
  pub waiting : ℕ
  pub waiters : List ℕ
  pub successes : ℕ
  pub last_used : ℕ
  pub failing_notice : Bool
  pub failure_start : Option ℕ
  pub disabled : Bool
  pub quarantined : Bool

-- `InitialConcurrency <= 0 || InitialConcurrency > MaxConcurrency`
initial_or : ℤ → ℕ → ℕ
initial_or raw cap =
    let given = positive_or raw 0 in if given == 0 || ltb cap given then min 8 cap else given

unfoldable pub new_lane : ℕ → String → RawLaneOptions → Lane
unfolding initial_or
new_lane now endpoint_id raw =
    let cap = positive_or raw.max_concurrency 64 in
    let initial = initial_or raw.initial_concurrency cap in
    record {
      endpoint_id = endpoint_id;
      opts = record {
        initial_concurrency = initial;
        max_concurrency = cap;
        successes_per_increase = positive_or raw.successes_per_increase 10;
        rate_limit = pos_part raw.rate_limit;
        max_waiters = positive_or raw.max_waiters (4 * cap);
      };
      breaker = new_breaker raw.breaker;
      concurrency = initial;
      in_flight = 0;
      waiting = 0;
      waiters = [];
      successes = 0;
      last_used = now;
      failing_notice = false;
      failure_start = none;
      disabled = false;
      quarantined = false;
    }

-- `lane.limiter != nil`
unfoldable pub has_limiter : Lane → Bool
has_limiter l = not (l.opts.rate_limit == 0)

unfoldable pub touch : ℕ → Lane → Lane
touch now l = record l { last_used = now }

unfoldable pub idle_for : ℕ → Lane → ℕ
idle_for now l = now - l.last_used

-- The start of `Acquire`: false is ErrLaneSaturated.
unfoldable pub acquire_begin : ℕ → Lane → Lane × Bool
unfolding touch
acquire_begin now l =
    let l' = touch now l in
    if leb l.opts.max_waiters l.waiting
    then (l', false)
    else (record l' { waiting = l.waiting + 1 }, true)

-- One round of `Acquire`'s loop: a slot, or the channel joins the waiters.
unfoldable pub try_slot : ℕ → Lane → Lane × Bool
try_slot channel l =
    if ltb l.in_flight l.concurrency
    then (record l { in_flight = l.in_flight + 1 }, true)
    else (record l { waiters = l.waiters ++ channel ∷ [] }, false)

-- The deferred function of `Acquire`.
unfoldable pub acquire_end : Lane → Lane
acquire_end l = record l { waiting = l.waiting - 1 }

-- `TryAcquire`; `limiter_allows` is the limiter's answer, if there is one.
unfoldable pub try_acquire : ℕ → Bool → Lane → Lane × Bool
unfolding touch has_limiter
try_acquire now limiter_allows l =
    let l' = touch now l in
    if leb l.concurrency l.in_flight
    then (l', false)
    else if has_limiter l && not limiter_allows
    then (l', false)
    else (record l' { in_flight = l.in_flight + 1 }, true)

-- `cancelWaiter`: the first waiter with that channel leaves.
without_first : ℕ → List ℕ → List ℕ
without_first channel [] = []
without_first channel (w ∷ ws) =
    let rest = without_first channel ws in if w == channel then ws else w ∷ rest

unfoldable pub cancel_waiter : ℕ → Lane → Lane
unfolding without_first
cancel_waiter channel l = record l { waiters = without_first channel l.waiters }

-- The loop of `Acquire`, for one goroutine: an element of `rounds` is what the others do to the lane
-- until they close this goroutine's channel; where the list ends, its context ends first.
unfoldable pub acquire_rounds : ℕ → List (Lane → Lane) → Lane → Lane × Bool
unfolding try_slot cancel_waiter acquire_end
acquire_rounds channel [] l =
    let (l', got) = try_slot channel l in
    if got then (acquire_end l', true) else (acquire_end (cancel_waiter channel l'), false)
acquire_rounds channel (others ∷ rounds) l =
    let (l', got) = try_slot channel l in
    let rest = acquire_rounds channel rounds (others l') in
    if got then (acquire_end l', true) else rest

-- `Acquire` for one goroutine; `limiter_fails` is an error of the limiter's wait, if there is one.
unfoldable pub acquire : ℕ → ℕ → Bool → List (Lane → Lane) → Lane → Lane × Bool
unfolding acquire_begin has_limiter acquire_rounds
acquire now channel limiter_fails rounds l =
    let (l', entered) = acquire_begin now l in
    if not entered
    then (l', false)
    else if has_limiter l && limiter_fails
    then (acquire_end l', false)
    else acquire_rounds channel rounds l'

-- `wakeWaitersLocked`: the lane, and the channels that it closes. The loop takes the first waiter
-- for each free slot.
unfoldable pub wake_waiters : Lane → Lane × List ℕ
wake_waiters l =
    let free = l.concurrency - l.in_flight in
    (record l { waiters = drop free l.waiters }, take free l.waiters)

unfoldable pub release : Lane → Lane × List ℕ
unfolding wake_waiters
release l = wake_waiters (record l { in_flight = l.in_flight - 1 })

unfoldable pub allow : ℕ → Lane → Lane × Bool
allow now l = let (b, allowed) = Breaker.allow now l.breaker in (record l { breaker = b }, allowed)

-- The additive increase.
unfoldable pub on_success : Lane → Lane × List ℕ
unfolding wake_waiters
on_success l =
    let l' = record l { breaker = Breaker.on_success l.breaker; successes = l.successes + 1 } in
    if ltb l'.successes l.opts.successes_per_increase
    then (l', [])
    else if ltb l.concurrency l.opts.max_concurrency
    then wake_waiters (record l' { successes = 0; concurrency = l.concurrency + 1 })
    else (record l' { successes = 0 }, [])

-- The multiplicative decrease. `refused` is the result's field.
unfoldable pub on_failure : ℕ → Bool → Lane → Lane
on_failure now refused l = record l {
  breaker = Breaker.on_failure now l.breaker;
  successes = 0;
  concurrency = if refused then 1 else max 1 (l.concurrency / 2);
}

unfoldable pub failure_run_start : Option ℕ → Lane → Lane × Option ℕ
failure_run_start from_snapshot l =
    if is_set l.failure_start
    then (l, l.failure_start)
    else (record l { failure_start = from_snapshot }, from_snapshot)

unfoldable pub begin_failure_run : ℕ → Lane → Lane × Bool
begin_failure_run at l =
    if is_set l.failure_start then (l, false) else (record l { failure_start = some at }, true)

unfoldable pub end_failure_run : Lane → Lane × Bool
end_failure_run l = (
  record l { failure_start = none; disabled = false; quarantined = false },
  is_set l.failure_start || l.disabled || l.quarantined,
)

unfoldable pub mark_disabled : Lane → Lane × Bool
mark_disabled l = if l.disabled then (l, false) else (record l { disabled = true }, true)

unfoldable pub mark_quarantined : Lane → Lane × Bool
mark_quarantined l = if l.quarantined then (l, false) else (record l { quarantined = true }, true)

unfoldable pub mark_failing_notice : Lane → Lane × Bool
mark_failing_notice l = (record l { failing_notice = true }, not l.failing_notice)

unfoldable pub clear_failing_notice : Lane → Lane × Bool
clear_failing_notice l = (record l { failing_notice = false }, l.failing_notice)

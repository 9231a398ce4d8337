-- ===== src/Dispatch/Breaker.antt =====
-- internal/application/dispatch/breaker.go: the circuit breaker of one endpoint.
-- A time is the number of nanoseconds since Go's zero time, and a duration is a number of
-- nanoseconds. Each method is one critical section of the breaker's mutex; `opts.Now()` is its
-- argument `now`. The bounds below show that the durations stay within an int64.
pub mod Transitions
pub mod Cooldown
mod Examples
use huxio.Prelude.{
  ℕ, ◌+◌, ◌-◌, ◌*◌, min, max, Bool, true, false, ◌||◌, ◌&&◌, ltb, leb, ◌==◌, if◌then◌else◌, ℤ, pos,
  negsuc, positive_or, String,
}

pub data BreakerState : Type 0 where
  closed opened half_open : BreakerState

-- `BreakerState.String`
pub state_name : BreakerState → String
state_name opened = "open"
state_name half_open = "half-open"
state_name closed = "closed"

-- The options as they are given, with Go's signed values.
pub record RawBreakerOptions : Type 0 where
  pub failure_threshold : ℤ
  pub cooldown : ℤ
  pub max_cooldown : ℤ

-- The options after the defaults are applied.
pub record BreakerOptions : Type 0 where
  pub failure_threshold : ℕ
  pub cooldown : ℕ
  pub max_cooldown : ℕ

pub record Breaker : Type 0 where
  pub opts : BreakerOptions
  pub state : BreakerState
  pub consecutive_fails : ℕ
  pub cooldown : ℕ
  pub opened_at : ℕ
  pub retry_at : ℕ
  pub probe_in_flight : Bool

abbrev pub second : ℕ
second = 1_000_000_000

abbrev pub minute : ℕ
minute = 60_000_000_000

-- `opts.MaxCooldown < opts.Cooldown` and its repair
max_cooldown_or : ℤ → ℕ → ℕ
max_cooldown_or (pos m) c = if ltb m c then max (10 * minute) c else m
max_cooldown_or (negsuc m) c = max (10 * minute) c

abbrev pub is_half_open : BreakerState → Bool
is_half_open half_open = true
is_half_open _ = false

abbrev pub is_closed : BreakerState → Bool
is_closed closed = true
is_closed _ = false

abbrev pub is_open : BreakerState → Bool
is_open opened = true
is_open _ = false

unfoldable pub new_breaker : RawBreakerOptions → Breaker
unfolding max_cooldown_or
new_breaker raw =
    let cooldown = positive_or raw.cooldown (30 * second) in
    record {
      opts = record {
        failure_threshold = positive_or raw.failure_threshold 20;
        cooldown = cooldown;
        max_cooldown = max_cooldown_or raw.max_cooldown cooldown;
      };
      state = closed;
      consecutive_fails = 0;
      cooldown = cooldown;
      opened_at = 0;
      retry_at = 0;
      probe_in_flight = false;
    }

-- The `switch` of `Allow`.
allow_in : BreakerState → ℕ → Breaker → Breaker × Bool
allow_in closed now b = (b, true)
allow_in opened now b =
    if ltb now b.retry_at
    then (b, false)
    else (record b { state = half_open; probe_in_flight = true }, true)
allow_in half_open now b =
    if b.probe_in_flight then (b, false) else (record b { probe_in_flight = true }, true)

unfoldable pub allow : ℕ → Breaker → Breaker × Bool
unfolding allow_in
allow now b = allow_in b.state now b

unfoldable pub on_success : Breaker → Breaker
on_success b = record b {
  consecutive_fails = 0;
  probe_in_flight = false;
  state = closed;
  cooldown = b.opts.cooldown;
  opened_at = 0;
}

unfoldable pub reopen : ℕ → Breaker → Breaker
reopen now b =
    let since = if b.opened_at == 0 then now else b.opened_at in
    let cooldown =
      if is_open b.state || is_half_open b.state
      then min (b.cooldown * 2) b.opts.max_cooldown
      else b.cooldown in
    record b { opened_at = since; cooldown = cooldown; state = opened; retry_at = now + cooldown }

unfoldable pub on_failure : ℕ → Breaker → Breaker
unfolding reopen
on_failure now b =
    let counted = record b { consecutive_fails = b.consecutive_fails + 1 } in
    if is_half_open b.state
    then reopen now (record counted { probe_in_flight = false })
    else if is_closed b.state && leb b.opts.failure_threshold counted.consecutive_fails
    then reopen now (record counted { opened_at = now })
    else counted

-- `Sub` of a time that is not later than `now`.
unfoldable pub open_for : ℕ → Breaker → ℕ
open_for now b = if is_closed b.state || b.opened_at == 0 then 0 else now - b.opened_at

-- ===== src/Retry/Examples.antt =====
-- Delays of the default schedule.
use huxio.Prelude.{
  ℕ, ◌+◌, ◌*◌, ◌/◌, ◌≤◌, ◌≡◌, refl, true, Option, none, some, arith, pos, codes, String,
}
use huxio.Retry.{
  Outcome, Policy, delay, exhausted, floored, honoured, clamp, default_schedule, seconds,
}
use huxio.Retry.Bounds.{IsTenth, delay_bounds}
use huxio.Retry.Header.{atoi}

-- The least that a random jitter leaves, without the fraction.
abbrev lowest : ℕ → ℕ
lowest t = 9 * t / 10

abbrev shortened : Policy
shortened = record { schedule = default_schedule; jitter = lowest }

abbrev timed_out : Outcome
timed_out = record { status_code = 0; timeout = true; retry_after = some (pos 1) }

lowest-IsTenth : IsTenth lowest
lowest-IsTenth t low = (omega arith, omega arith)

first_delay : delay shortened 0 timed_out ≡ some (seconds 27)
unfolding delay exhausted floored honoured clamp
first_delay = refl

delay_bounds_example :
    (9 * seconds 30 ≤ 10 * (seconds 27 + 2)) × (10 * seconds 27 ≤ 22 * seconds 30 + 20)
delay_bounds_example =
    delay_bounds shortened 0 timed_out (seconds 5) (seconds 27) lowest-IsTenth (omega arith) refl
      first_delay

abbrev no_dates : String → String → Option ℕ
no_dates layout text = none

two_minutes : atoi (codes "120") ≡ some (pos 120)
unfolding atoi
two_minutes = refl

-- ===== src/Retry.antt =====
-- internal/domain/retry/policy.go: when a failed delivery is tried again.
-- A duration is a number of nanoseconds. Only a Retry-After may be negative, since the header's
-- seconds are multiplied with Go's wrapping int64. The jitter is a field of the policy, as in the
-- source, at the fixed `JitterFraction`; `randomJitter` computes with floats and is not modelled.
pub mod Header
pub mod Bounds
mod Examples
use huxio.Prelude.{
  ℕ, ◌+◌, ◌*◌, max, Bool, ◌||◌, Option, none, some, List, [], ◌∷◌, leb, ltb, ◌==◌, if◌then◌else◌,
  get_elem?, length, ℤ, pos, ltb_ℤ, pos_part,
}

abbrev pub seconds : ℕ → ℕ
seconds n = n * 1_000_000_000

abbrev pub minutes : ℕ → ℕ
minutes n = n * 60_000_000_000

abbrev pub hours : ℕ → ℕ
hours n = n * 3_600_000_000_000

abbrev pub default_schedule : List ℕ
default_schedule = seconds 5 ∷ minutes 5 ∷ minutes 30 ∷ hours 2 ∷ hours 5 ∷ hours 10 ∷ hours 10 ∷ []

abbrev pub overload_floor : ℕ
overload_floor = seconds 30

-- http.StatusTooManyRequests
abbrev pub too_many_requests : ℕ
too_many_requests = 429

pub record Outcome : Type 0 where
  pub status_code : ℕ
  pub timeout : Bool
  pub retry_after : Option ℤ

pub record Policy : Type 0 where
  pub schedule : List ℕ
  pub jitter : ℕ → ℕ

-- `WithSchedule`: an empty schedule is ignored.
unfoldable pub with_schedule : List ℕ → Policy → Policy
with_schedule [] p = p
with_schedule (d ∷ ds) p = record p { schedule = d ∷ ds }

-- `NewPolicy` with a jitter function and a schedule.
unfoldable pub new_policy : (ℕ → ℕ) → List ℕ → Policy
unfolding with_schedule
new_policy jitter schedule =
    with_schedule schedule (record { schedule = default_schedule; jitter = jitter })

unfoldable pub max_attempts : Policy → ℕ
max_attempts p = length p.schedule + 1

unfoldable pub exhausted : Policy → ℕ → Bool
exhausted p attempt = leb (length p.schedule) attempt

unfoldable pub clamp : ℤ → ℕ → ℕ → ℕ
clamp d lo hi = if ltb_ℤ d (pos lo) then lo else if ltb_ℤ (pos hi) d then hi else pos_part d

-- A timeout or an explicit 429 gets a floor.
unfoldable pub floored : Outcome → ℕ → ℕ
floored o d = if o.timeout || o.status_code == too_many_requests then max d overload_floor else d

unfoldable pub honoured : Option ℤ → ℕ → ℕ
unfolding clamp
honoured none d = d
honoured (some after) d = clamp after d (2 * d)

-- The last lines of `Delay`, with the delay of the schedule. An index that is out of range would
-- panic; the test of `Exhausted` stands before it.
delay_from : Policy → Option ℕ → Outcome → Option ℕ
unfolding floored honoured
delay_from p none o = none
delay_from p (some d) o = some (p.jitter (honoured o.retry_after (floored o d)))

unfoldable pub delay : Policy → ℕ → Outcome → Option ℕ
unfolding exhausted delay_from
delay p attempt o =
    if exhausted p attempt then none else delay_from p (get_elem? p.schedule attempt) o

abbrev pub no_jitter : ℕ → ℕ
no_jitter d = d

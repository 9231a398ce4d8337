-- ===== src/Dispatch/Breaker/Cooldown.antt =====
-- The breaker's counters and cooldown: bounds, doubling, and when it opens.
use huxio.Prelude.{
  ℕ, zero, suc, ◌+◌, ◌*◌, ◌^◌, ◌≤◌, ◌<◌, min, ◌≡◌, refl, inl, inr, true, false, List, [], ◌∷◌,
  arith, ◌∙◌, leb, length, Bool-cases,
}
use native.Mathlib.Nat.{pow-suc}
use huxio.Dispatch.Breaker.{closed, opened, half_open, RawBreakerOptions, Breaker, new_breaker}
use huxio.Dispatch.Breaker.Transitions.{Event, ask, success, failure, step, run}

-- What holds of a breaker between two calls.
pub record IsValid (b : Breaker) : Type 0 where
  pub threshold_pos : 0 < b.opts.failure_threshold
  pub base_pos : 0 < b.opts.cooldown
  pub base_capped : b.opts.cooldown ≤ b.opts.max_cooldown
  pub cooldown_low : b.opts.cooldown ≤ b.cooldown
  pub cooldown_capped : b.cooldown ≤ b.opts.max_cooldown
  pub closed_below : b.state ≡ closed → b.consecutive_fails < b.opts.failure_threshold
  pub closed_resets : b.state ≡ closed → b.cooldown ≡ b.opts.cooldown
  pub closed_no_probe : b.state ≡ closed → b.probe_in_flight ≡ false
  pub half_open_probes : b.state ≡ half_open → b.probe_in_flight ≡ true
  pub open_no_probe : b.state ≡ opened → b.probe_in_flight ≡ false

pub new_breaker-IsValid : (raw : RawBreakerOptions) → IsValid (new_breaker raw)
unfolding new_breaker
new_breaker-IsValid raw = ground arith

pub step-IsValid : (b : Breaker) (e : Event) → IsValid b → IsValid (step b e)
unfolding step
step-IsValid b (ask now) v = ground arith
step-IsValid b success v = ground arith
step-IsValid b (failure now) v = ground arith

run_keeps : (b : Breaker) (es : List Event) → IsValid b → IsValid (run b es)
unfolding run
run_keeps b [] v = v
run_keeps b (e ∷ es) v = run_keeps (step b e) es (step-IsValid b e v)

-- Whatever options a breaker is built with and whatever calls it then receives, it satisfies the
-- invariant: the cooldown stays between the configured one and the cap, a closed breaker has fewer
-- failures than the threshold, and a half-open one has exactly its one probe out.
pub run-IsValid : (raw : RawBreakerOptions) (es : List Event) → IsValid (run (new_breaker raw) es)
run-IsValid raw es = run_keeps (new_breaker raw) es (new_breaker-IsValid raw)

opts-step : (b : Breaker) (e : Event) → (step b e).opts ≡ b.opts
unfolding step
opts-step b (ask now) = ground arith
opts-step b success = refl
opts-step b (failure now) = ground arith

pub opts-run : (b : Breaker) (es : List Event) → (run b es).opts ≡ b.opts
unfolding run
opts-run b [] = refl
opts-run b (e ∷ es) = opts-run (step b e) es ∙ opts-step b e

abbrev pub int64_limit : ℕ
int64_limit = 2 ^ 63

-- With a cap below 2 ^ 62 ns, some 146 years, doubling the cooldown never overflows an int64.
pub cooldown_fits :
    (raw : RawBreakerOptions) (es : List Event)
    → (new_breaker raw).opts.max_cooldown < 2 ^ 62
    → (run (new_breaker raw) es).cooldown * 2 < int64_limit
cooldown_fits raw es h = ground (arith, opts-run (new_breaker raw) es, run-IsValid raw es)

-- One failed probe: a request at or after the time of the next probe, and then its failure.
abbrev failed_probe : Breaker → ℕ × ℕ → Breaker
failed_probe b (wait, took) =
    let at = b.retry_at + wait in step (step b (ask at)) (failure (at + took))

-- An outage: probes that fail one after the other.
pub outage : Breaker → List (ℕ × ℕ) → Breaker
outage b [] = b
outage b ((wait, took) ∷ probes) = outage (failed_probe b (wait, took)) probes

failed_probe_lem :
    (b : Breaker) (p : ℕ × ℕ)
    → b.state ≡ opened
    → ((failed_probe b p).state ≡ opened)
      × ((failed_probe b p).cooldown ≡ min (b.cooldown * 2) b.opts.max_cooldown)
      × ((failed_probe b p).opts ≡ b.opts)
unfolding step
failed_probe_lem b (wait, took) h = ground arith

-- Capping before the later doublings is capping once, at the end.
cap_twice : (c m q : ℕ) → 0 < q → min (min (c * 2) m * q) m ≡ min (c * (q * 2)) m
cap_twice c m zero h = elim h [ ]
cap_twice c m (suc q) h = elim (Bool-cases (leb (c * 2) m)) [
  | inl le ↦
      let e : min (c * 2) m ≡ c * 2 = ground arith in
      let f : c * 2 * suc q ≡ c * (suc q * 2) = omega arith in rw (e, f)
  | inr gt ↦
      let e : min (c * 2) m ≡ m = ground arith in
      let above : m < c * 2 = ground arith in rw e (omega arith)
]

pow_pos : (k : ℕ) → 0 < 2 ^ k
pow_pos zero = omega arith
pow_pos (suc k) = simp pow-suc (omega (arith, pow_pos k))

-- After n probes in a row have failed, the cooldown is the one the breaker opened with, doubled n
-- times and capped.
pub cooldown-outage :
    (b : Breaker) (probes : List (ℕ × ℕ))
    → b.state ≡ opened
    → b.cooldown ≤ b.opts.max_cooldown
    → (outage b probes).cooldown ≡ min (b.cooldown * 2 ^ length probes) b.opts.max_cooldown
unfolding outage
cooldown-outage b [] h c = ground arith
cooldown-outage b (p ∷ probes) h c =
    let (still, twice, same) = failed_probe_lem b p h in
    cooldown-outage (failed_probe b p) probes still (rw (twice, same) (omega arith))
    ∙ rw (twice, same, pow-suc)
        (cap_twice b.cooldown b.opts.max_cooldown (2 ^ length probes) (pow_pos _))

-- ===== src/Dispatch/Breaker/Transitions.antt =====
-- The breaker's state machine: how deliveries are admitted and refused, and what moves it.
use huxio.Prelude.{
  ℕ, suc, ◌+◌, ◌≤◌, ◌<◌, ◌≡◌, refl, ◌⊎◌, Bool, true, false, List, [], ◌∷◌, arith, ap, ◌∙◌, ltb,
  if◌then◌else◌, length,
}
use huxio.Dispatch.Breaker.{
  closed, opened, half_open, RawBreakerOptions, Breaker, new_breaker, allow, on_success, on_failure,
}

-- A half-open breaker has its probe out until `OnSuccess` or `OnFailure` is called.
abbrev pub ProbeOut : Breaker → Type 0
ProbeOut b = (b.state ≡ half_open) × (b.probe_in_flight ≡ true)

pub data Event : Type 0 where
  ask : ℕ → Event
  success : Event
  failure : ℕ → Event

unfoldable pub step : Breaker → Event → Breaker
unfolding allow on_success on_failure
step b (ask now) = (allow now b).0
step b success = on_success b
step b (failure now) = on_failure now b

unfoldable pub run : Breaker → List Event → Breaker
run b [] = b
run b (e ∷ es) = run (step b e) es

-- How many of a list of requests, with no report between them, are admitted.
unfoldable pub admitted : Breaker → List ℕ → ℕ
admitted b [] = 0
admitted b (now ∷ nows) =
    let (b', admits) = allow now b in
    let rest = admitted b' nows in if admits then suc rest else rest

ProbeOut-refuses : (b : Breaker) (now : ℕ) → ProbeOut b → allow now b ≡ (b, false)
unfolding allow
ProbeOut-refuses b now h = ground arith

admitted-ProbeOut : (b : Breaker) (nows : List ℕ) → ProbeOut b → admitted b nows ≡ 0
unfolding admitted
admitted-ProbeOut b [] h = refl
admitted-ProbeOut b (now ∷ nows) h =
    ground (arith, ProbeOut-refuses b now h, admitted-ProbeOut b nows h)

allow_opens_probe :
    (b : Breaker) (now : ℕ)
    → b.state ≡ opened
    → (allow now b ≡ (b, false)) ⊎ (ProbeOut (allow now b).0 × ((allow now b).1 ≡ true))
unfolding allow
allow_opens_probe b now h = ground arith

-- However many deliveries ask, at whatever times, an open breaker admits at most one of them until
-- the result of a delivery is reported.
pub admitted_open-le-one : (b : Breaker) (nows : List ℕ) → b.state ≡ opened → admitted b nows ≤ 1
unfolding admitted
admitted_open-le-one b [] h = omega arith
admitted_open-le-one b (now ∷ nows) h = ground (
  arith,
  allow_opens_probe b now h,
  admitted-ProbeOut (allow now b).0 nows,
  admitted_open-le-one b nows h,
)

abbrev asks : List ℕ → List Event
asks [] = []
asks (now ∷ nows) = ask now ∷ asks nows

-- While a probe is out, requests alone change nothing: whatever the time, each one is refused, and
-- the breaker is left as it was. Only a reported result lets another delivery through.
pub ProbeOut-blocks :
    (b : Breaker) (nows : List ℕ) → ProbeOut b → (admitted b nows ≡ 0) × (run b (asks nows) ≡ b)
unfolding run step
ProbeOut-blocks b nows h = (admitted-ProbeOut b nows h, stays nows)
  where
    stays : (nows : List ℕ) → run b (asks nows) ≡ b
    stays [] = refl
    stays (now ∷ nows) =
        ap (λ (r : Breaker × Bool). run r.0 (asks nows)) (ProbeOut-refuses b now h) ∙ stays nows

abbrev pub failures : List ℕ → List Event
failures [] = []
failures (now ∷ nows) = failure now ∷ failures nows

-- A failure while the breaker is open only counts: neither the state nor the next probe moves.
failures_opened :
    (b : Breaker) (nows : List ℕ) → b.state ≡ opened → (run b (failures nows)).state ≡ opened
unfolding run step
failures_opened b [] h = h
failures_opened b (now ∷ nows) h = failures_opened (step b (failure now)) nows (ground arith)

failures_closed :
    (b : Breaker) (nows : List ℕ)
    → b.state ≡ closed
    → b.consecutive_fails < b.opts.failure_threshold
    → (run b (failures nows)).state ≡ (
        if ltb (b.consecutive_fails + length nows) b.opts.failure_threshold then closed else opened)
unfolding run step
failures_closed b [] c h = ground arith
failures_closed b (now ∷ nows) c h = ground (
  arith,
  failures_closed (step b (failure now)) nows,
  failures_opened (step b (failure now)) nows,
)

-- A new breaker that sees only failures, at any times, is closed while there are fewer of them than
-- the threshold, and open from then on.
pub new_breaker-failures :
    (raw : RawBreakerOptions) (nows : List ℕ)
    → let b = new_breaker raw in
      (run b (failures nows)).state
      ≡ (if ltb (length nows) b.opts.failure_threshold then closed else opened)
unfolding new_breaker
new_breaker-failures raw nows = ground (arith, failures_closed (new_breaker raw) nows refl)

-- A breaker that has cooled down lets one probe out.
pub allow_cooled :
    (b : Breaker) (now : ℕ)
    → b.state ≡ opened
    → b.retry_at ≤ now
    → allow now b ≡ (record b { state = half_open; probe_in_flight = true }, true)
unfolding allow
allow_cooled b now is_open cooled = ground arith

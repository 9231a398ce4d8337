-- ===== src/Dispatch/Breaker/Examples.antt =====
-- A breaker that opens after two failures.
use huxio.Prelude.{◌^◌, ◌≤◌, ◌<◌, refl, List, [], ◌∷◌, arith}
use huxio.Dispatch.Breaker.{opened, new_breaker}
use huxio.Dispatch.Breaker.Transitions.{Event, ask, failure, run, admitted, admitted_open-le-one}
use huxio.Dispatch.Breaker.Cooldown.{IsValid, run-IsValid}
use huxio.Fixtures.{raw_breaker, breaker}

abbrev events : List Event
events = failure 10 ∷ failure 20 ∷ ask 25 ∷ ask 40 ∷ ask 41 ∷ failure 45 ∷ []

admitted_open-le-one_example : admitted (breaker opened) (70 ∷ 80 ∷ []) ≤ 1
admitted_open-le-one_example = admitted_open-le-one (breaker opened) (70 ∷ 80 ∷ []) refl

run-IsValid_example : IsValid (run (new_breaker raw_breaker) events)
run-IsValid_example = run-IsValid raw_breaker events

small_cap : (new_breaker raw_breaker).opts.max_cooldown < 2 ^ 62
unfolding new_breaker
small_cap = omega arith

-- ===== src/Dispatch/Lane/Examples.antt =====
-- A lane of one slot, which may grow to two.
use huxio.Prelude.{◌≤◌, ◌≢◌, refl, true, List, [], ◌∷◌, arith}
use huxio.Dispatch.Breaker.{closed}
use huxio.Dispatch.Lane.{new_lane, acquire_begin, touch, initial_or}
use huxio.Dispatch.Lane.Aimd.{
  Call, begins, tries, tries_now, ends, releases, succeeds, fails, calls, share_bounded,
}
use huxio.Dispatch.Lane.Waiters.{
  World, Step, Reach, start, Counts, Reach-Counts, IsStranded, give_up_woken-IsStranded, here, next,
  enter,
}
use huxio.Fixtures.{raw_lane, lane}

abbrev traffic : List Call
traffic = tries_now 10 true ∷ begins 11 ∷ tries 1 ∷ releases ∷ succeeds ∷ fails 12 true ∷ ends ∷ []

share_bounded_example :
    let l = new_lane 5 "ep1" raw_lane in
    let l' = calls traffic l in
    (l'.in_flight ≤ l.opts.max_concurrency)
    × (l'.waiting ≤ l.opts.max_waiters)
    × (1 ≤ l'.concurrency)
    × (l'.concurrency ≤ l.opts.max_concurrency)
share_bounded_example = share_bounded 5 "ep1" raw_lane traffic

abbrev waiting_world : World
waiting_world = record (start 5 "ep1" raw_lane) {
  lane = (acquire_begin 6 (new_lane 5 "ep1" raw_lane)).0;
  ready = 1;
}

entered : Reach (start 5 "ep1" raw_lane) waiting_world
unfolding acquire_begin touch new_lane initial_or
entered = next here (enter 6 refl)

Reach-Counts_example : Counts waiting_world
Reach-Counts_example = Reach-Counts 5 "ep1" raw_lane entered

abbrev woken_late : World
woken_late = record {
  lane = record (lane closed) { waiting = 2; waiters = 8 ∷ [] };
  ready = 0;
  woken = 7 ∷ [];
  leaving = 0;
  holding = 0;
}

still_waiting : woken_late.lane.waiters ≢ []
still_waiting h = absurd (cc)

give_up_woken-IsStranded_example : (u : World) × Step woken_late u × IsStranded u
give_up_woken-IsStranded_example =
    give_up_woken-IsStranded woken_late 7 refl refl refl (omega arith) still_waiting refl

-- ===== src/Dispatch/Lanes/Examples.antt =====
-- A manager with the lane of one endpoint.
use huxio.Prelude.{◌≡◌, refl, some, [], ◌∷◌}
use huxio.Prelude.Dict.{get}
use huxio.Dispatch.Breaker.{opened}
use huxio.Dispatch.Lanes.{LaneManager}
use huxio.Fixtures.{raw_lane, lane}

abbrev manager : LaneManager
manager = record { defaults = raw_lane; idle_eviction = 100; lanes = ("ep1", lane opened) ∷ [] }

lane_known : get manager.lanes "ep1" ≡ some (lane opened)
unfolding get
lane_known = refl

-- ===== src/Dispatch/Lanes.antt =====
-- internal/application/dispatch/lanes.go: the lanes of this worker, one for an endpoint.
-- The manager's mutex makes each method one step. The order in which Go walks the map does not
-- matter for the results.
pub mod Eviction
mod Examples
use huxio.Prelude.{
  ℕ, suc, ◌+◌, ◌-◌, Bool, true, false, not, ◌&&◌, ◌||◌, Option, none, some, List, [], ◌∷◌, String,
  ltb, leb, ◌==◌, if◌then◌else◌, keep, length, ℤ, pos, positive_or, ltb_ℤ, ◌*◌,
}
use huxio.Prelude.Dict.{Dict, get, put}
use huxio.Domain.Endpoint.{Endpoint}
use huxio.Dispatch.Breaker.{BreakerState, closed, opened, half_open, minute, is_closed, open_for}
use huxio.Dispatch.Lane.{Lane, RawLaneOptions, new_lane, idle_for}

pub record LaneManager : Type 0 where
  pub defaults : RawLaneOptions
  pub idle_eviction : ℕ
  pub lanes : Dict Lane

unfoldable pub new_lane_manager : RawLaneOptions → ℤ → LaneManager
new_lane_manager defaults idle_eviction = record {
  defaults = defaults;
  idle_eviction = positive_or idle_eviction (10 * minute);
  lanes = [];
}

-- An endpoint's own rate limit overrides the default, if it is positive.
unfoldable pub lane_options : RawLaneOptions → Endpoint → RawLaneOptions
lane_options raw ep = elim ep.rate_limit [
  | none ↦ raw
  | some limit ↦ if ltb_ℤ (pos 0) limit then record raw { rate_limit = limit } else raw
]

-- `For`, after the look-up.
lane_or_new : ℕ → Endpoint → LaneManager → Option Lane → LaneManager × Lane
unfolding lane_options
lane_or_new now ep m (some lane) = (m, lane)
lane_or_new now ep m none =
    let lane = new_lane now ep.id (lane_options m.defaults ep) in
    (record m { lanes = put m.lanes ep.id lane }, lane)

unfoldable pub for_endpoint : ℕ → Endpoint → LaneManager → LaneManager × Lane
unfolding lane_or_new
for_endpoint now ep m = lane_or_new now ep m (get m.lanes ep.id)

-- The tests of `EvictIdle`: nothing in flight, the breaker closed, and idle for long enough.
unfoldable pub evictable : ℕ → ℕ → Lane → Bool
evictable now after lane =
    not (ltb 0 lane.in_flight) && is_closed lane.breaker.state && leb after (idle_for now lane)

unfoldable pub evict_idle : ℕ → LaneManager → LaneManager × ℕ
evict_idle now m =
    let kept = keep (λ e. not (evictable now m.idle_eviction e.1)) m.lanes in
    (record m { lanes = kept }, length m.lanes - length kept)

pub record LaneStats : Type 0 where
  pub endpoint_id : String
  pub concurrency : ℕ
  pub in_flight : ℕ
  pub breaker_state : BreakerState
  pub open_for : ℕ

unfoldable pub stats : ℕ → Dict Lane → List LaneStats
stats now [] = []
stats now ((id, lane) ∷ rest) =
    record {
      endpoint_id = lane.endpoint_id;
      concurrency = lane.concurrency;
      in_flight = lane.in_flight;
      breaker_state = lane.breaker.state;
      open_for = open_for now lane.breaker;
    }
    ∷ stats now rest

pub record BreakerCounts : Type 0 where
  pub closed_lanes : ℕ
  pub open_lanes : ℕ
  pub half_open_lanes : ℕ

count_state : BreakerState → BreakerCounts → BreakerCounts
count_state closed c = record c { closed_lanes = c.closed_lanes + 1 }
count_state opened c = record c { open_lanes = c.open_lanes + 1 }
count_state half_open c = record c { half_open_lanes = c.half_open_lanes + 1 }

unfoldable pub breaker_counts : Dict Lane → BreakerCounts
unfolding count_state
breaker_counts [] = record { closed_lanes = 0; open_lanes = 0; half_open_lanes = 0 }
breaker_counts ((id, lane) ∷ rest) = count_state lane.breaker.state (breaker_counts rest)

-- ===== src/Dispatch/Lanes/Eviction.antt =====
-- Which lane an endpoint gets, and which lanes an eviction drops.
use huxio.Prelude.{
  ℕ, ◌≤◌, ◌≡◌, ◌⊎◌, inl, inr, refl, Bool, true, false, not, Option, none, some, [], ◌∷◌, String,
  arith, if◌then◌else◌, keep, str_eq, eq_iff, Bool-cases,
}
use huxio.Prelude.Dict.{Dict, get, get-put}
use huxio.Domain.Endpoint.{Endpoint}
use huxio.Dispatch.Breaker.{closed}
use huxio.Dispatch.Lane.{Lane, idle_for}
use huxio.Dispatch.Lanes.{LaneManager, lane_or_new, for_endpoint, evictable, evict_idle}

lane_or_new-get :
    (now : ℕ) (ep : Endpoint) (m : LaneManager) (o : Option Lane) (id : String)
    → get m.lanes ep.id ≡ o
    → let (m', lane) = lane_or_new now ep m o in
      get m'.lanes id ≡ (if str_eq ep.id id then some lane else get m.lanes id)
unfolding lane_or_new
lane_or_new-get now ep m none id e = get-put m.lanes ep.id _ id
lane_or_new-get now ep m (some lane) id e = elim (Bool-cases (str_eq ep.id id)) [
  | inl same ↦ rw same (rw (← (eq_iff ep.id id).0 same) e)
  | inr other ↦ rw other refl
]

-- An endpoint's deliveries share one lane: the one that `For` returns is the one in the map, and
-- the lanes of other endpoints are left as they were.
pub for_endpoint-get :
    (now : ℕ) (ep : Endpoint) (m : LaneManager) (id : String)
    → let (m', lane) = for_endpoint now ep m in
      get m'.lanes id ≡ (if str_eq ep.id id then some lane else get m.lanes id)
unfolding for_endpoint
for_endpoint-get now ep m id = lane_or_new-get now ep m (get m.lanes ep.id) id refl

-- What an eviction drops: idle for long enough, nothing in flight, and the breaker closed.
pub record IsIdle (now after : ℕ) (lane : Lane) : Type 0 where
  pub none_in_flight : lane.in_flight ≡ 0
  pub breaker_closed : lane.breaker.state ≡ closed
  pub long_idle : after ≤ idle_for now lane

evictable-IsIdle :
    (now after : ℕ) (lane : Lane) → evictable now after lane ≡ true → IsIdle now after lane
unfolding evictable
evictable-IsIdle now after lane h = ground arith

get-keep :
    (p : String × Lane → Bool) (m : Dict Lane) (id : String) (lane : Lane)
    → get m id ≡ some lane
    → (get (keep p m) id ≡ some lane) ⊎ (p (id, lane) ≡ false)
unfolding get
get-keep p [] id lane h = absurd (cc)
get-keep p ((i, l) ∷ m) id lane h = elim (Bool-cases (str_eq i id)) [
  | inl same ↦
      let at : i ≡ id = (eq_iff i id).0 same in
      let it : l ≡ lane = ground arith in
      elim (Bool-cases (p (i, l))) [
        | inl kept ↦ inl (rw (kept, same, it) refl)
        | inr gone ↦ inr (rw (← at, ← it) gone)
      ]
  | inr other ↦ elim (get-keep p m id lane (rw other at h)) [
    | inl found ↦ inl (elim (Bool-cases (p (i, l))) [
      | inl kept ↦ rw (kept, other) found
      | inr gone ↦ rw gone found
    ])
    | inr gone ↦ inr gone
  ]
]

-- An eviction leaves a lane of the map where it is, unless the lane is idle: an open or half-open
-- breaker, or a delivery in flight, always survives it.
pub evict_idle-keeps :
    (now : ℕ) (m : LaneManager) (id : String) (lane : Lane)
    → get m.lanes id ≡ some lane
    → (get (evict_idle now m).0.lanes id ≡ some lane) ⊎ IsIdle now m.idle_eviction lane
unfolding evict_idle
evict_idle-keeps now m id lane h =
    elim (get-keep (λ e. not (evictable now m.idle_eviction e.1)) m.lanes id lane h) [
      | inl kept ↦ inl kept
      | inr gone ↦ inr (evictable-IsIdle now m.idle_eviction lane (ground arith))
    ]

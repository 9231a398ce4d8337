-- ===== src/Dispatch/Engine/Health/Slow.antt =====
-- When an endpoint is switched off, or moved to the quarantine pool.
use huxio.Prelude.{
  ℕ, ◌+◌, ◌-◌, ◌≤◌, ◌<◌, ◌≡◌, ◌≢◌, refl, Bool, true, false, not, Option, none, some, [], arith,
  if◌then◌else◌, is_set, ◌⊎◌, inl, inr, Bool-cases, All, All-append, eq_iff,
}
use huxio.Domain.Endpoint.{disabled}
use huxio.Config.Snapshot.{Endpoint}
use huxio.Dispatch.Breaker.{open_for}
use huxio.Dispatch.Lane.{Lane, begin_failure_run, failure_run_start}
use huxio.Dispatch.Engine.{Engine, Effect, set_pool, set_disabled, set_first_failure}
use huxio.Dispatch.Engine.Health.Writes.{
  is_transition, written-All, judge-All, after_success-All, AllMarked,
  apply_health_transitions-AllMarked,
}
use huxio.Dispatch.Engine.Health.{
  EndpointFails, Run, disables, quarantines, judge, after_failure, after_success,
  apply_health_transitions,
}

-- When the endpoint's run of failures began, before this one.
pub run_start : Endpoint → Lane → Option ℕ
run_start ep l = if is_set l.failure_start then l.failure_start else ep.row.first_failure_at

-- The endpoint may be switched off at that time.
pub record IsWornOut (e : Engine) (ep : Endpoint) (now : ℕ) (l : Lane) : Type 0 where
  pub start : ℕ
  pub began : run_start ep l ≡ some start
  pub enabled : 0 < e.opts.disable_after
  pub long_failing : start + e.opts.disable_after ≤ now
  pub not_disabled : disabled ep.row ≡ false
  pub not_marked : l.disabled ≡ false

-- The endpoint may be moved to the quarantine pool at that time.
pub record IsLongOpen (e : Engine) (ep : Endpoint) (now : ℕ) (l : Lane) : Type 0 where
  pub enabled : 0 < e.opts.quarantine_after
  pub long_open : e.opts.quarantine_after ≤ open_for now l.breaker
  pub elsewhere : ep.row.pool ≢ e.opts.quarantine_pool
  pub not_marked : l.quarantined ≡ false

-- Of the writes, these two have a condition.
pub IsDue : Engine → Endpoint → ℕ → Bool → Lane → Effect → Type 0
IsDue e ep now ok l (set_disabled id at) =
    (ok ≡ false) × (id ≡ ep.row.id) × (at ≡ now) × IsWornOut e ep now l
IsDue e ep now ok l (set_pool id pool) =
    (ok ≡ false) × (id ≡ ep.row.id) × (pool ≡ e.opts.quarantine_pool) × IsLongOpen e ep now l
IsDue e ep now ok l _ = Unit

plain-IsDue :
    (e : Engine) (ep : Endpoint) (now : ℕ) (ok : Bool) (l : Lane) (f : Effect)
    → is_transition f ≡ false
    → IsDue e ep now ok l f
unfolding IsDue is_transition
plain-IsDue e ep now ok l (set_disabled id at) h = absurd (cc)
plain-IsDue e ep now ok l (set_pool id pool) h = absurd (cc)
plain-IsDue e ep now ok l _ h = tt

quarantines-IsLongOpen :
    (e : Engine) (ep : Endpoint) (now : ℕ) (l : Lane)
    → quarantines e ep now l ≡ true
    → l.quarantined ≡ false
    → IsLongOpen e ep now l
unfolding quarantines
quarantines-IsLongOpen e ep now l q fresh = record {
  enabled = ground (arith, q);
  long_open = ground (arith, q);
  elsewhere = ground (arith, q, eq_iff ep.row.pool e.opts.quarantine_pool);
  not_marked = fresh;
}

disables-IsWornOut :
    (e : Engine) (ep : Endpoint) (now start : ℕ) (l : Lane)
    → run_start ep l ≡ some start
    → disables e ep (now - start) ≡ true
    → l.disabled ≡ false
    → IsWornOut e ep now l
unfolding disables
disables-IsWornOut e ep now start l began d fresh = record {
  start = start;
  began = began;
  enabled = ground (arith, d);
  long_failing = ground (arith, d);
  not_disabled = ground (arith, d);
  not_marked = fresh;
}

disables-at_once : (e : Engine) (ep : Endpoint) (now : ℕ) → disables e ep (now - now) ≡ false
unfolding disables
disables-at_once e ep now = ground arith

judge-IsDue :
    (e : Engine) (fails : EndpointFails) (ep : Endpoint) (now start : ℕ) (l : Lane) (x : Option ℕ)
    → (disables e ep (now - start) ≡ true → l.disabled ≡ false → IsWornOut e ep now l)
    → All (IsDue e ep now false l) (judge e fails ep now start (record l { failure_start = x })).1
unfolding IsDue quarantines
judge-IsDue e fails ep now start l x worn =
    judge-All (IsDue e ep now false l) (plain-IsDue e ep now false l) e fails ep now start
      (record l { failure_start = x }) (λ d fresh. (refl, refl, refl, worn d fresh))
      (λ q fresh. (refl, refl, refl, quarantines-IsLongOpen e ep now l q fresh))

after_failure-IsDue :
    (e : Engine) (fails : EndpointFails) (ep : Endpoint) (now : ℕ) (start : Option ℕ) (l : Lane)
    (x : Option ℕ)
    → run_start ep l ≡ start
    → All
        (IsDue e ep now false l)
        (after_failure e fails ep now start (record l { failure_start = x })).1
unfolding after_failure begin_failure_run IsDue
after_failure-IsDue e fails ep now (some start) l x began =
    judge-IsDue e fails ep now start l x (disables-IsWornOut e ep now start l began)
after_failure-IsDue e fails ep now none l (some x) began =
    judge-IsDue e fails ep now now l (some x)
      (λ d fresh. absurd (ground (arith, d, disables-at_once e ep now)))
after_failure-IsDue e fails ep now none l none began =
    All-append (IsDue e ep now false l) _ _
      (written-All (IsDue e ep now false l) (plain-IsDue e ep now false l) e fails.first_failure
        (set_first_failure ep.row.id (some now)) tt)
      (judge-IsDue e fails ep now now l (some now)
        (λ d fresh. absurd (ground (arith, d, disables-at_once e ep now))))

failure-IsDue :
    (e : Engine) (fails : EndpointFails) (ep : Endpoint) (now : ℕ) (l : Lane)
    → let (l', start) = failure_run_start ep.row.first_failure_at l in
      All (IsDue e ep now false l) (after_failure e fails ep now start l').1
unfolding failure_run_start
failure-IsDue e fails ep now l = cases (Bool-cases (is_set l.failure_start))
  where
    cases :
        (is_set l.failure_start ≡ true) ⊎ (is_set l.failure_start ≡ false)
        → let (l', start) = failure_run_start ep.row.first_failure_at l in
          All (IsDue e ep now false l) (after_failure e fails ep now start l').1
    cases (inl h) = rw h (
        after_failure-IsDue e fails ep now l.failure_start l l.failure_start
          (unfold run_start in rw h refl))
    cases (inr h) = rw h (
        after_failure-IsDue e fails ep now ep.row.first_failure_at l ep.row.first_failure_at
          (unfold run_start in rw h refl))

-- Without the writer of the endpoint's state nothing is written.
gated :
    (P : Effect → Type 0) (b : Bool) (l : Lane) (r : Run)
    → All P r.1
    → All P (if not b then (l, []) else r).1
gated P true l r h = h
gated P false l r h = tt

transitions-IsDue :
    (e : Engine) (fails : EndpointFails) (ep : Endpoint) (now : ℕ) (ok : Bool) (l : Lane)
    → All (IsDue e ep now ok l) (apply_health_transitions e fails ep now ok l).1
unfolding apply_health_transitions IsDue
transitions-IsDue e fails ep now true l =
    gated (IsDue e ep now true l) e.endpoint_state l (after_success e fails ep l)
      (after_success-All (IsDue e ep now true l) (plain-IsDue e ep now true l) e fails ep l)
transitions-IsDue e fails ep now false l =
    let (l', start) = failure_run_start ep.row.first_failure_at l in
    gated (IsDue e ep now false l) e.endpoint_state l (after_failure e fails ep now start l')
      (failure-IsDue e fails ep now l)

-- The endpoint is switched off, or moved to the quarantine pool, only after a failed delivery to it. It
-- is switched off, at that time, only if it is not off in the configuration and its run of failures, by
-- the lane's mark or else the configuration's, began at least `DisableAfter` ago; it is moved only if its
-- breaker has been open for `QuarantineAfter`, from another pool. Each is asked for only of a lane that
-- has no mark of it, and the lane that is left has the mark.
pub apply_health_transitions-IsDue :
    (e : Engine) (fails : EndpointFails) (ep : Endpoint) (now : ℕ) (ok : Bool) (l : Lane)
    → All (IsDue e ep now ok l) (apply_health_transitions e fails ep now ok l).1
      × AllMarked (apply_health_transitions e fails ep now ok l)
apply_health_transitions-IsDue e fails ep now ok l =
    (transitions-IsDue e fails ep now ok l, apply_health_transitions-AllMarked e fails ep now ok l)

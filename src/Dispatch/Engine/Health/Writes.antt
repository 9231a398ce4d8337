-- ===== src/Dispatch/Engine/Health/Writes.antt =====
-- The writes of an endpoint's row that change where its deliveries go, and the marks of its lane.
use huxio.Prelude.{
  ℕ, ◌-◌, ◌≡◌, refl, Bool, true, false, not, ◌||◌, Option, none, some, List, [], ◌∷◌, arith,
  if◌then◌else◌, is_set, inl, inr, Bool-cases, All, All-append,
}
use huxio.Config.Snapshot.{Endpoint}
use huxio.Dispatch.Lane.{
  Lane, mark_disabled, mark_quarantined, begin_failure_run, end_failure_run, failure_run_start,
}
use huxio.Dispatch.Engine.{
  Engine, Effect, set_pool, set_disabled, set_first_failure, emit, invalidate, invalidation,
}
use huxio.Dispatch.Engine.Health.{
  EndpointFails, Run, written, disable, disables, quarantines, judge, after_failure, after_success,
  apply_health_transitions, emit_endpoint_disabled,
}

-- The writes that change where an endpoint's deliveries go.
unfoldable pub is_transition : Effect → Bool
is_transition (set_disabled id at) = true
is_transition (set_pool id pool) = true
is_transition _ = false

module _ (P : Effect → Type 0) (plain : (f : Effect) → is_transition f ≡ false → P f) where
  if-All : (b : Bool) (fs gs : List Effect) → All P fs → All P gs → All P (if b then fs else gs)
  if-All true fs gs h k = h
  if-All false fs gs h k = k

  pub invalidation-All : (e : Engine) → All P (invalidation e)
  unfolding invalidation is_transition
  invalidation-All e = if-All e.invalidator (invalidate ∷ []) [] (plain invalidate refl, tt) tt

  pub written-All : (e : Engine) (b : Bool) (f : Effect) → P f → All P (written e b f)
  unfolding written
  written-All e true f h = (h, tt)
  written-All e false f h = (h, invalidation-All e)

  pub emit_endpoint_disabled-All :
      (e : Engine) (ep : Endpoint) → All P (emit_endpoint_disabled e ep)
  unfolding emit_endpoint_disabled is_transition
  emit_endpoint_disabled-All e ep =
      if-All e.operational (emit _ ∷ []) [] (plain (emit _) refl, tt) tt

  pub disable-All :
      (e : Engine) (b : Bool) (ep : Endpoint) (now : ℕ)
      → P (set_disabled ep.row.id now)
      → All P (disable e b ep now)
  unfolding disable
  disable-All e true ep now h = (h, tt)
  disable-All e false ep now h =
      (h, All-append P (invalidation e) _ (invalidation-All e) (emit_endpoint_disabled-All e ep))

  pub judge-All :
      (e : Engine) (fails : EndpointFails) (ep : Endpoint) (now start : ℕ) (l : Lane)
      → (disables e ep (now - start) ≡ true → l.disabled ≡ false → P (set_disabled ep.row.id now))
      → (quarantines e ep now l ≡ true
          → l.quarantined ≡ false
          → P (set_pool ep.row.id e.opts.quarantine_pool))
      → All P (judge e fails ep now start l).1
  unfolding judge mark_disabled mark_quarantined
  judge-All e fails ep now start l off move = elim (Bool-cases (disables e ep (now - start))) [
    | inl d ↦ elim (Bool-cases l.disabled) [
      | inl marked ↦ rw (d, marked) tt
      | inr fresh ↦ rw (d, fresh) (disable-All e fails.disable ep now (off d fresh))
    ]
    | inr n ↦ elim (Bool-cases (quarantines e ep now l)) [
      | inl q ↦ elim (Bool-cases l.quarantined) [
        | inl marked ↦ rw (n, q, marked) tt
        | inr fresh ↦ rw (n, q, fresh) (written-All e fails.move _ (move q fresh))
      ]
      | inr o ↦ rw (n, o) tt
    ]
  ]

  pub after_success-All :
      (e : Engine) (fails : EndpointFails) (ep : Endpoint) (l : Lane)
      → All P (after_success e fails ep l).1
  unfolding after_success is_transition
  after_success-All e fails ep l =
      if-All ((end_failure_run l).1 || is_set ep.row.first_failure_at) _ []
        (written-All e fails.first_failure (set_first_failure ep.row.id none) (plain _ refl)) tt

-- A write that the lane has a mark for.
pub IsMarked : Lane → Effect → Type 0
IsMarked l (set_disabled id at) = l.disabled ≡ true
IsMarked l (set_pool id pool) = l.quarantined ≡ true
IsMarked l _ = Unit

plain-IsMarked : (l : Lane) (f : Effect) → is_transition f ≡ false → IsMarked l f
unfolding IsMarked
plain-IsMarked l (set_disabled id at) h = absurd (unfold is_transition in cc)
plain-IsMarked l (set_pool id pool) h = absurd (unfold is_transition in cc)
plain-IsMarked l _ h = tt

-- The writes that a run asks for have their mark in the lane that it leaves.
abbrev pub AllMarked : Run → Type 0
AllMarked r = All (IsMarked r.0) r.1

if-AllMarked : (b : Bool) (r t : Run) → AllMarked r → AllMarked t → AllMarked (if b then r else t)
if-AllMarked true r t h k = h
if-AllMarked false r t h k = k

-- A write that is asked for where the mark is new.
if-marked :
    (m : Lane × Bool) (fs : List Effect)
    → (m.1 ≡ true → All (IsMarked m.0) fs)
    → AllMarked (m.0, if m.1 then fs else [])
if-marked (l, true) fs h = h refl
if-marked (l, false) fs h = tt

mark_disabled-disabled :
    (l : Lane) → (mark_disabled l).1 ≡ true → (mark_disabled l).0.disabled ≡ true
unfolding mark_disabled
mark_disabled-disabled l h = ground (arith, h)

mark_quarantined-quarantined :
    (l : Lane) → (mark_quarantined l).1 ≡ true → (mark_quarantined l).0.quarantined ≡ true
unfolding mark_quarantined
mark_quarantined-quarantined l h = ground (arith, h)

judge-AllMarked :
    (e : Engine) (fails : EndpointFails) (ep : Endpoint) (now start : ℕ) (l : Lane)
    → AllMarked (judge e fails ep now start l)
unfolding judge IsMarked
judge-AllMarked e fails ep now start l =
    let off = mark_disabled l in
    let move = mark_quarantined l in
    let moved = written e fails.move (set_pool ep.row.id e.opts.quarantine_pool) in
    if-AllMarked (disables e ep (now - start))
      (off.0, if off.1 then disable e fails.disable ep now else [])
      (if quarantines e ep now l then (move.0, if move.1 then moved else []) else (l, []))
      (if-marked off (disable e fails.disable ep now) (λ h.
        disable-All (IsMarked off.0) (plain-IsMarked off.0) e fails.disable ep now
          (mark_disabled-disabled l h)))
      (if-AllMarked (quarantines e ep now l) (move.0, if move.1 then moved else []) (l, [])
        (if-marked move moved (λ h.
          written-All (IsMarked move.0) (plain-IsMarked move.0) e fails.move _
            (mark_quarantined-quarantined l h)))
        tt)

if-written :
    (l : Lane) (b : Bool) (e : Engine) (fails : Bool) (ep : Endpoint) (at : Option ℕ)
    → All (IsMarked l) (if b then written e fails (set_first_failure ep.row.id at) else [])
unfolding IsMarked
if-written l b e fails ep at =
    if-All (IsMarked l) (plain-IsMarked l) b _ []
      (written-All (IsMarked l) (plain-IsMarked l) e fails (set_first_failure ep.row.id at) tt) tt

after_failure-AllMarked :
    (e : Engine) (fails : EndpointFails) (ep : Endpoint) (now : ℕ) (start : Option ℕ) (l : Lane)
    → AllMarked (after_failure e fails ep now start l)
unfolding after_failure
after_failure-AllMarked e fails ep now (some start) l = judge-AllMarked e fails ep now start l
after_failure-AllMarked e fails ep now none l =
    let (l', began) = begin_failure_run now l in
    All-append (IsMarked (judge e fails ep now now l').0) _ _
      (if-written (judge e fails ep now now l').0 began e fails.first_failure ep (some now))
      (judge-AllMarked e fails ep now now l')

pub apply_health_transitions-AllMarked :
    (e : Engine) (fails : EndpointFails) (ep : Endpoint) (now : ℕ) (ok : Bool) (l : Lane)
    → AllMarked (apply_health_transitions e fails ep now ok l)
unfolding apply_health_transitions after_success
apply_health_transitions-AllMarked e fails ep now ok l =
    cases e.endpoint_state ok (failure_run_start ep.row.first_failure_at l)
  where
    cases :
        (gate ok : Bool) (r : Lane × Option ℕ)
        → AllMarked (
            if not gate
            then (l, [])
            else if ok
            then after_success e fails ep l
            else after_failure e fails ep now r.1 r.0)
    cases false ok r = tt
    cases true true r =
        if-written (end_failure_run l).0 ((end_failure_run l).1 || is_set ep.row.first_failure_at) e
          fails.first_failure ep none
    cases true false r = after_failure-AllMarked e fails ep now r.1 r.0

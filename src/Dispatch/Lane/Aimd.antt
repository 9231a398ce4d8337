-- ===== src/Dispatch/Lane/Aimd.antt =====
-- The share of one endpoint: its slots and its waiters stay within the lane's bounds, whatever calls
-- are made, in whatever order.
use huxio.Prelude.{
  ℕ, zero, suc, ◌+◌, ◌≤◌, ◌<◌, min, ◌≡◌, refl, ◌∙◌, Bool, List, [], ◌∷◌, String, arith, ltb,
  if◌then◌else◌,
}
use huxio.Dispatch.Lane.{
  Lane, RawLaneOptions, new_lane, acquire_begin, try_slot, acquire_end, try_acquire, cancel_waiter,
  release, allow, on_success, on_failure,
}

-- The calls that touch the lane's slots.
pub data Call : Type 0 where
  begins : ℕ → Call
  tries : ℕ → Call
  ends : Call
  tries_now : ℕ → Bool → Call
  cancels : ℕ → Call
  releases : Call
  succeeds : Call
  fails : ℕ → Bool → Call
  asks : ℕ → Call

unfoldable pub call : Call → Lane → Lane
unfolding acquire_begin try_slot acquire_end try_acquire cancel_waiter release allow on_success
    on_failure
call (begins now) l = (acquire_begin now l).0
call (tries channel) l = (try_slot channel l).0
call ends l = acquire_end l
call (tries_now now limiter) l = (try_acquire now limiter l).0
call (cancels channel) l = cancel_waiter channel l
call releases l = (release l).0
call succeeds l = (on_success l).0
call (fails now refused) l = on_failure now refused l
call (asks now) l = (allow now l).0

unfoldable pub calls : List Call → Lane → Lane
calls [] l = l
calls (c ∷ cs) l = calls cs (call c l)

pub record IsValid (l : Lane) : Type 0 where
  pub concurrency_pos : 1 ≤ l.concurrency
  pub concurrency_capped : l.concurrency ≤ l.opts.max_concurrency
  pub in_flight_capped : l.in_flight ≤ l.opts.max_concurrency
  pub waiting_capped : l.waiting ≤ l.opts.max_waiters
  pub successes_below : l.successes < l.opts.successes_per_increase

new_lane-IsValid : (now : ℕ) (id : String) (raw : RawLaneOptions) → IsValid (new_lane now id raw)
unfolding new_lane
new_lane-IsValid now id raw = ground arith

call-IsValid : (c : Call) (l : Lane) → IsValid l → IsValid (call c l)
unfolding call
call-IsValid (begins now) l v = ground arith
call-IsValid _ l v = ground arith

calls-IsValid : (cs : List Call) (l : Lane) → IsValid l → IsValid (calls cs l)
unfolding calls
calls-IsValid [] l v = v
calls-IsValid (c ∷ cs) l v = calls-IsValid cs (call c l) (call-IsValid c l v)

opts-call : (c : Call) (l : Lane) → (call c l).opts ≡ l.opts
unfolding call
opts-call (begins now) l = ground arith
opts-call _ l = ground arith

opts-calls : (cs : List Call) (l : Lane) → (calls cs l).opts ≡ l.opts
unfolding calls
opts-calls [] l = refl
opts-calls (c ∷ cs) l = opts-calls cs (call c l) ∙ opts-call c l

-- Whatever calls an endpoint's lane receives, in whatever order, at most `max_concurrency` of its
-- deliveries are in flight and at most `max_waiters` wait, and it keeps at least one slot: an
-- endpoint cannot take more of the worker than its share, nor be shut out.
pub share_bounded :
    (now : ℕ) (id : String) (raw : RawLaneOptions) (cs : List Call)
    → let l = new_lane now id raw in
      let l' = calls cs l in
      (l'.in_flight ≤ l.opts.max_concurrency)
      × (l'.waiting ≤ l.opts.max_waiters)
      × (1 ≤ l'.concurrency)
      × (l'.concurrency ≤ l.opts.max_concurrency)
share_bounded now id raw cs =
    let l = new_lane now id raw in
    ground (arith, opts-calls cs l, calls-IsValid cs l (new_lane-IsValid now id raw))

abbrev pub successes : ℕ → List Call
successes zero = []
successes (suc n) = succeeds ∷ successes n

success_counts :
    (l : Lane)
    → l.successes + 1 < l.opts.successes_per_increase
    → ((call succeeds l).successes ≡ l.successes + 1)
      × ((call succeeds l).concurrency ≡ l.concurrency)
unfolding call
success_counts l h = ground arith

success_raises :
    (l : Lane)
    → l.successes + 1 ≡ l.opts.successes_per_increase
    → l.concurrency ≤ l.opts.max_concurrency
    → ((call succeeds l).successes ≡ 0)
      × ((call succeeds l).concurrency ≡ min (l.concurrency + 1) l.opts.max_concurrency)
unfolding call
success_raises l h c = ground arith

-- A run of exactly as many successes as are still missing earns one slot, up to the maximum, and
-- no slot before its last.
pub additive_increase :
    (k : ℕ) (l : Lane)
    → l.concurrency ≤ l.opts.max_concurrency
    → l.successes + suc k ≤ l.opts.successes_per_increase
    → (calls (successes (suc k)) l).concurrency ≡ (
        if ltb (l.successes + suc k) l.opts.successes_per_increase
        then l.concurrency
        else min (l.concurrency + 1) l.opts.max_concurrency)
unfolding calls
additive_increase zero l c h = ground (arith, success_counts l, success_raises l)
additive_increase (suc k) l c h =
    let l' = call succeeds l in
    let (s, same) = success_counts l (omega arith) in
    ground (arith, opts-call succeeds l, s, same, additive_increase k l')

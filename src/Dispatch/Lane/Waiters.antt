-- ===== src/Dispatch/Lane/Waiters.antt =====
-- The goroutines of one lane as interleaved steps. `ready` of them are about to try for a slot,
-- those of `lane.waiters` wait on their channels, those of `woken` have had theirs closed and have
-- not run yet, `leaving` of them are before the deferred function of `Acquire`, and `holding` of them
-- deliver.
use huxio.Prelude.{
  ℕ, ◌+◌, ◌-◌, ◌<◌, ◌≡◌, ◌≢◌, refl, ap, sym, ◌∙◌, Bool, true, false, List, [], ◌∷◌, ◌++◌, String,
  arith, drop, take, length, length-append, length-take, length-drop, contains,
}
use huxio.Dispatch.Lane.{
  Lane, RawLaneOptions, new_lane, acquire_begin, try_slot, acquire_end, try_acquire, cancel_waiter,
  wake_waiters, without_first, release, on_success, on_failure,
}

pub record World : Type 0 where
  pub lane : Lane
  pub ready : ℕ
  pub woken : List ℕ
  pub leaving : ℕ
  pub holding : ℕ

pub data Step (w : World) : World → Type 0 where
  enter :
      (now : ℕ) {l : Lane}
      → acquire_begin now w.lane ≡ (l, true)
      → Step w (record w { lane = l; ready = w.ready + 1 })
  refuse :
      (now : ℕ) {l : Lane} → acquire_begin now w.lane ≡ (l, false) → Step w (record w { lane = l })
  take_slot :
      (channel : ℕ) {l : Lane}
      → 0 < w.ready
      → try_slot channel w.lane ≡ (l, true)
      → Step w (record w {
        lane = l;
        ready = w.ready - 1;
        leaving = w.leaving + 1;
        holding = w.holding + 1;
      })
  park :
      (channel : ℕ) {l : Lane}
      → 0 < w.ready
      → try_slot channel w.lane ≡ (l, false)
      → Step w (record w { lane = l; ready = w.ready - 1 })
  resume :
      (channel : ℕ) (rest : List ℕ)
      → w.woken ≡ channel ∷ rest
      → Step w (record w { woken = rest; ready = w.ready + 1 })
  -- The context ends first: for a goroutine that waits, for one before the limiter, and for one whose
  -- channel has been closed too, since Go's `select` takes either of two that can run.
  give_up :
      (channel : ℕ)
      → contains w.lane.waiters channel ≡ true
      → Step w (record w { lane = cancel_waiter channel w.lane; leaving = w.leaving + 1 })
  give_up_early : 0 < w.ready → Step w (record w { ready = w.ready - 1; leaving = w.leaving + 1 })
  -- (A closed channel has left the waiters, and each goroutine has a channel of its own.)
  give_up_woken :
      (channel : ℕ) (rest : List ℕ)
      → w.woken ≡ channel ∷ rest
      → contains w.lane.waiters channel ≡ false
      → Step w
          (record w { lane = cancel_waiter channel w.lane; woken = rest; leaving = w.leaving + 1 })
  leave : 0 < w.leaving → Step w (record w { lane = acquire_end w.lane; leaving = w.leaving - 1 })
  take_now :
      (now : ℕ) (limiter : Bool) {l : Lane}
      → try_acquire now limiter w.lane ≡ (l, true)
      → Step w (record w { lane = l; holding = w.holding + 1 })
  finish :
      0 < w.holding
      → Step w (record w {
        lane = (release w.lane).0;
        woken = w.woken ++ (release w.lane).1;
        holding = w.holding - 1;
      })
  succeed :
      Step w (record w { lane = (on_success w.lane).0; woken = w.woken ++ (on_success w.lane).1 })
  fail : (now : ℕ) (refused : Bool) → Step w (record w { lane = on_failure now refused w.lane })

pub data Reach (s : World) : World → Type 0 where
  here : Reach s s
  next : {t u : World} → Reach s t → Step t u → Reach s u

abbrev pub start : ℕ → String → RawLaneOptions → World
start now id raw = record {
  lane = new_lane now id raw;
  ready = 0;
  woken = [];
  leaving = 0;
  holding = 0;
}

-- The lane's counters count the goroutines.
pub record Counts (w : World) : Type 0 where
  pub slots : w.lane.in_flight ≡ w.holding
  pub waits : w.lane.waiting ≡ w.ready + w.leaving + length w.lane.waiters + length w.woken

cancelled_length :
    (channel : ℕ) (ws : List ℕ)
    → contains ws channel ≡ true
    → length ws ≡ length (without_first channel ws) + 1
unfolding without_first
cancelled_length channel [] h = cc
cancelled_length channel (w ∷ ws) h = ground (arith, cancelled_length channel ws)

without_first_absent :
    (channel : ℕ) (ws : List ℕ) → contains ws channel ≡ false → without_first channel ws ≡ ws
unfolding without_first
without_first_absent channel [] h = refl
without_first_absent channel (w ∷ ws) h = ground (arith, without_first_absent channel ws)

woken_length : (n : ℕ) (ws : List ℕ) → length (take n ws) + length (drop n ws) ≡ length ws
woken_length n ws = omega (arith, length-take n ws, length-drop n ws)

-- Every step keeps the counts.
Step-Counts : {w u : World} → Step w u → Counts w → Counts u
unfolding acquire_begin try_slot acquire_end try_acquire release on_success on_failure wake_waiters
    cancel_waiter
Step-Counts (enter now e) v = ground arith
Step-Counts (refuse now e) v = ground arith
Step-Counts (take_slot channel r e) v = ground arith
Step-Counts {w} (park channel r e) v = ground (arith, length-append w.lane.waiters (channel ∷ []))
Step-Counts (resume channel rest e) v = ground (arith, ap (length {A = ℕ}) e)
Step-Counts {w} (give_up channel e) v = ground (arith, cancelled_length channel w.lane.waiters e)
Step-Counts (give_up_early r) v = ground arith
Step-Counts {w} (give_up_woken channel rest e absent) v =
    ground (arith, without_first_absent channel w.lane.waiters absent, ap (length {A = ℕ}) e)
Step-Counts (leave r) v = ground arith
Step-Counts (take_now now limiter e) v = ground arith
Step-Counts {w} (finish r) v =
    let free = w.lane.concurrency - (w.lane.in_flight - 1) in
    ground
      (arith, length-append w.woken (take free w.lane.waiters), woken_length free w.lane.waiters)
Step-Counts {w} succeed v =
    let free = w.lane.concurrency + 1 - w.lane.in_flight in
    ground (
      arith,
      length-append w.woken [],
      length-append w.woken (take free w.lane.waiters),
      woken_length free w.lane.waiters,
    )
Step-Counts (fail now refused) v = ground arith

start-Counts : (now : ℕ) (id : String) (raw : RawLaneOptions) → Counts (start now id raw)
unfolding new_lane
start-Counts now id raw = ground arith

Reach-keeps : {s t : World} → Counts s → Reach s t → Counts t
Reach-keeps h here = h
Reach-keeps h (next r st) = Step-Counts st (Reach-keeps h r)

-- In every interleaving of deliveries that wait, are woken, give up and finish, the lane's slots in
-- flight are exactly the goroutines that deliver, and its waiting count is exactly the goroutines
-- inside `Acquire`: no slot and no place in the waiting room is ever leaked or given twice.
pub Reach-Counts :
    (now : ℕ) (id : String) (raw : RawLaneOptions) {w : World}
    → Reach (start now id raw) w
    → Counts w
Reach-Counts now id raw r = Reach-keeps (start-Counts now id raw) r

-- Nobody runs in the lane or is about to, a slot is free, and there is a goroutine that waits.
pub record IsStranded (w : World) : Type 0 where
  pub idle : w.holding ≡ 0
  pub none_ready : w.ready ≡ 0
  pub none_woken : w.woken ≡ []
  pub slot_free : w.lane.in_flight < w.lane.concurrency
  pub waits : w.lane.waiters ≢ []

-- A woken goroutine that gives up does not pass its wake-up on: if it was the only one to be woken,
-- and the lane is idle but for it, then those that still wait are stranded beside a free slot.
pub give_up_woken-IsStranded :
    (w : World) (channel : ℕ)
    → w.holding ≡ 0
    → w.ready ≡ 0
    → w.woken ≡ channel ∷ []
    → w.lane.in_flight < w.lane.concurrency
    → w.lane.waiters ≢ []
    → contains w.lane.waiters channel ≡ false
    → (u : World) × Step w u × IsStranded u
unfolding cancel_waiter
give_up_woken-IsStranded w channel idle r e free waits absent = (
  record w { lane = cancel_waiter channel w.lane; woken = []; leaving = w.leaving + 1 },
  give_up_woken channel [] e absent,
  record {
    idle = idle;
    none_ready = r;
    none_woken = refl;
    slot_free = free;
    waits = λ gone. waits (sym (without_first_absent channel w.lane.waiters absent) ∙ gone);
  },
)

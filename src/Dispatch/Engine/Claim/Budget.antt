-- ===== src/Dispatch/Engine/Claim/Budget.antt =====
-- The engine's in-flight budget.
use huxio.Prelude.{
  ℕ, ◌+◌, ◌≤◌, ◌≡◌, refl, Bool, true, false, ◌||◌, List, [], ◌∷◌, arith, leb, ◌==◌, if◌then◌else◌,
  length, take, length-take, length-map, keep, contains, none, All, ltb→lt, zero, suc,
}
use huxio.Domain.Task.{DeliveryTask}
use huxio.Store.Queue.{
  ClaimRequest, Rows, claim, release, ids, selected, order_rows, ready, update_where, locked,
  unlocked,
}
use huxio.Dispatch.Engine.{EngineOptions}
use huxio.Dispatch.Engine.Claim.{
  Claimed, ClaimReply, replies, fails, loses_reply, idle, answered, claim_request, dispatch,
  claim_and_dispatch,
}

length-claim :
    (now : ℕ) (req : ClaimRequest) (rows : Rows) → length (claim now req rows).1 ≤ req.limit
unfolding claim selected
length-claim now req rows = ground (
  arith,
  length-map (take req.limit (order_rows (keep (ready now req) rows))) (locked now req),
  length-take req.limit (order_rows (keep (ready now req) rows)),
)

dispatch-in_flight :
    (stop_at in_flight : ℕ) (r : Rows × List DeliveryTask)
    → (dispatch stop_at in_flight r).in_flight ≤ in_flight + length r.1
unfolding dispatch
dispatch-in_flight stop_at in_flight (queue, tasks) = omega (arith, length-take stop_at tasks)

-- What a batch leaves of the budget.
abbrev Fits : EngineOptions → ℕ → Claimed → Type 0
Fits opts in_flight r =
    (r.in_flight ≤ opts.max_inflight)
    × (r.count ≤ opts.claim_batch_size)
    × (in_flight + r.count ≤ opts.max_inflight)

answered-Fits :
    (opts : EngineOptions) (reply : ClaimReply) (partitions : List ℕ) (now in_flight stop_at : ℕ)
    (queue : Rows)
    → in_flight ≤ opts.max_inflight
    → Fits opts in_flight (
        answered reply stop_at in_flight queue
          (claim now (claim_request opts partitions in_flight) queue))
unfolding answered dispatch claim_request
answered-Fits opts replies partitions now in_flight stop_at queue h =
    let req = claim_request opts partitions in_flight in
    ground (
      arith,
      length-claim now req queue,
      dispatch-in_flight stop_at in_flight (claim now req queue),
    )
answered-Fits opts fails partitions now in_flight stop_at queue h = ground arith
answered-Fits opts loses_reply partitions now in_flight stop_at queue h = ground arith

-- A claim never takes more tasks than can run: the slots in use stay within the budget, and no more
-- tasks are claimed than a batch and the free slots.
pub claim_and_dispatch-in_flight :
    (opts : EngineOptions) (partitions : List ℕ) (reply : ClaimReply) (now in_flight stop_at : ℕ)
    (queue : Rows)
    → in_flight ≤ opts.max_inflight
    → let r = claim_and_dispatch opts partitions reply now in_flight stop_at queue in
      (r.in_flight ≤ opts.max_inflight)
      × (r.count ≤ opts.claim_batch_size)
      × (in_flight + r.count ≤ opts.max_inflight)
unfolding claim_and_dispatch
claim_and_dispatch-in_flight opts partitions reply now in_flight stop_at queue h =
    ground (arith, answered-Fits opts reply partitions now in_flight stop_at queue h)

-- The rows of the given ids are unlocked.
abbrev pub AllUnlocked : List ℕ → Rows → Type 0
AllUnlocked given rows = All (λ t. t.locked_until ≡ none) (keep (λ t. contains given t.id) rows)

contains-ids-take :
    (n : ℕ) (ts : List DeliveryTask) (id : ℕ)
    → contains (ids (take n ts)) id ≡ true
    → contains (ids ts) id ≡ true
contains-ids-take zero ts id h = absurd (cc)
contains-ids-take (suc n) [] id h = h
contains-ids-take (suc n) (t ∷ ts) id h = ground (arith, contains-ids-take n ts id)

release-AllUnlocked :
    (some_ids all_ids : List ℕ) (rows : Rows)
    → ((id : ℕ) → contains some_ids id ≡ true → contains all_ids id ≡ true)
    → AllUnlocked some_ids (release all_ids rows)
unfolding release update_where
release-AllUnlocked some_ids all_ids [] among = tt
release-AllUnlocked some_ids all_ids (t ∷ ts) among =
    cases (contains all_ids t.id) refl (contains some_ids t.id) refl
      (release-AllUnlocked some_ids all_ids ts among)
  where
    cases :
        (b : Bool)
        → contains all_ids t.id ≡ b
        → (c : Bool) → contains some_ids t.id ≡ c
        → AllUnlocked some_ids (release all_ids ts)
        → AllUnlocked some_ids ((if b then unlocked t else t) ∷ release all_ids ts)
    cases true h true k rest = rw k (refl, rest)
    cases true h false k rest = rw k rest
    cases false h false k rest = rw k rest
    cases false h true k rest = absurd (cc (among t.id k))

dispatch-AllUnlocked :
    (stop_at in_flight : ℕ) (r : Rows × List DeliveryTask)
    → (dispatch stop_at in_flight r).stopped ≡ true
    → let c = dispatch stop_at in_flight r in
      (length c.started ≡ stop_at) × AllUnlocked (ids c.started) c.queue
unfolding dispatch
dispatch-AllUnlocked stop_at in_flight (queue, tasks) h = (
  omega (arith, length-take stop_at tasks, ltb→lt stop_at (length tasks) h),
  rw h (
      release-AllUnlocked (ids (take stop_at tasks)) (ids tasks) queue
        (contains-ids-take stop_at tasks)),
)

-- A shutdown in the middle of a batch unlocks every task that was claimed, those that were started
-- included, so that another worker may claim a task whose delivery still runs.
pub claim_and_dispatch-AllUnlocked :
    (opts : EngineOptions) (partitions : List ℕ) (reply : ClaimReply) (now in_flight stop_at : ℕ)
    (queue : Rows)
    → (claim_and_dispatch opts partitions reply now in_flight stop_at queue).stopped ≡ true
    → let r = claim_and_dispatch opts partitions reply now in_flight stop_at queue in
      (length r.started ≡ stop_at) × AllUnlocked (ids r.started) r.queue
unfolding claim_and_dispatch answered
claim_and_dispatch-AllUnlocked opts partitions reply now in_flight stop_at queue h =
    cases ((length partitions == 0) || leb opts.max_inflight in_flight) reply h
  where
    run : Bool → ClaimReply → Claimed
    run b answer =
        if b
        then idle false in_flight queue
        else answered answer stop_at in_flight queue
            (claim now (claim_request opts partitions in_flight) queue)

    cases :
        (b : Bool) (answer : ClaimReply)
        → (run b answer).stopped ≡ true
        → let r = run b answer in (length r.started ≡ stop_at) × AllUnlocked (ids r.started) r.queue
    cases true answer k = absurd (cc)
    cases false replies k = dispatch-AllUnlocked stop_at in_flight _ k
    cases false fails k = absurd (cc)
    cases false loses_reply k = absurd (cc)

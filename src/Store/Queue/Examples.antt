-- ===== src/Store/Queue/Examples.antt =====
-- Two workers at one queue.
use huxio.Prelude.{
  ◌≡◌, ◌≤◌, ◌+◌, ◌*◌, refl, false, true, some, List, [], ◌∷◌, All, contains, length, arith,
}
use huxio.Domain.Task.{deliver}
use huxio.Store.Queue.{Rows, claim, ids, selected, order_rows, before, ready}
use huxio.Store.Queue.Locks.{
  Statement, claims, completes, rescues, execute_all, claimed_once, Spares,
}
use huxio.Store.Queue.Select.{IsClaimed, claim-IsClaimed}
use huxio.Store.Queue.Persistence.{IsDue}
use huxio.Dispatch.Breaker.{second}
use huxio.Fixtures.{task, queue, claim_by}

abbrev between : List Statement
between = completes (1 ∷ []) ∷ rescues 1000 ∷ claims 500 (claim_by "other") ∷ []

claimed : contains (ids (claim 200 (claim_by "worker") queue).1) 2 ≡ true
unfolding claim selected order_rows before ready
claimed = refl

spared : All (Spares 2 (200 + 90 * second)) between
spared = (refl, (omega arith, (tt, tt)))

claimed_once_example :
    contains
      (ids
        (claim 600
          (claim_by "other")
          (execute_all between (claim 200 (claim_by "worker") queue).0)).1)
      2
    ≡ false
claimed_once_example =
    claimed_once 200 (claim_by "worker") queue 2 between claimed spared 600 (claim_by "other")

claim-IsClaimed_example :
    All (IsClaimed 200 (claim_by "worker")) (claim 200 (claim_by "worker") queue).1
    × (length (claim 200 (claim_by "worker") queue).1 ≤ 10)
claim-IsClaimed_example = claim-IsClaimed 200 (claim_by "worker") queue

abbrev held : Rows
held = record (task 2 deliver) { locked_by = some "dead"; locked_until = some 300 } ∷ []

due :
    IsDue 200
      (claim_by "worker")
      (record (task 2 deliver) { locked_by = some "dead"; locked_until = some 300 })
due = record { pool = refl; partition = refl; due = omega arith; live = refl }

-- ===== src/Dispatch/Engine/Fanout/Kept.antt =====
-- What a fan-out leaves in the queue.
use huxio.Prelude.{
  ℕ, ◌+◌, ◌<◌, ◌≡◌, refl, Bool, true, false, not, ◌&&◌, Option, none, some, List, [], ◌∷◌, ◌++◌,
  map, String, str_eq, eq_iff, arith, ◌⊎◌, inl, inr, any, keep, contains, All, All-of, All-imp,
  Bool-cases, ◌==◌, is_set,
}
use huxio.Utils.{fallback}
use huxio.Domain.Task.{DeliveryTask, Message, TaskKind, deliver, partition_key_for}
use huxio.Store.Queue.{EnqueueTask, Rows, ids, inserted, enqueue, complete_many}
use huxio.Store.Queue
use huxio.Config.Snapshot.{Snapshot, Endpoint, matching_endpoints}
use huxio.Dispatch.Lease.{unique}
use huxio.Dispatch.Engine.{Engine, notify, perform, perform_all}
use huxio.Dispatch.Engine.Fanout.{
  found, FanoutAnswers, deliver_task, expand_to, expansion, with_message, with_snapshot,
  handle_fanout,
}

is_for : String → Option String → Bool
is_for id none = false
is_for id (some other) = str_eq other id

is_deliver : TaskKind → Bool
is_deliver deliver = true
is_deliver _ = false

-- A row that delivers the fan-out's message to an endpoint: a fresh deliver task, in the endpoint's
-- partition, and in its pool, or else the engine's.
delivers : Engine → DeliveryTask → Endpoint → DeliveryTask → Bool
unfolding is_for is_deliver
delivers e task ep row =
    is_deliver row.kind
    && str_eq row.org_id task.org_id
    && str_eq row.app_id task.app_id
    && str_eq row.msg_id task.msg_id
    && row.msg_created_at == task.msg_created_at
    && is_for ep.row.id row.endpoint_id
    && row.partition_key == partition_key_for ep.row.id
    && str_eq row.pool (fallback ep.row.pool e.opts.pool)
    && row.attempt == 0
    && not (is_set row.locked_until)

-- The endpoint will get the message: the fan-out is still queued, or a delivery is.
pub IsKept : Engine → DeliveryTask → Rows → Endpoint → Type 0
unfolding delivers
IsKept e task rows ep =
    (contains (ids rows) task.id ≡ true) ⊎ (any (delivers e task ep) rows ≡ true)

module _ {A : Type 0} (p : A → Bool) where
  any-append_right : (xs ys : List A) → any p ys ≡ true → any p (xs ++ ys) ≡ true
  any-append_right [] ys h = h
  any-append_right (x ∷ xs) ys h = ground (arith, any-append_right xs ys h)

  any-append_left : (xs ys : List A) → any p xs ≡ true → any p (xs ++ ys) ≡ true
  any-append_left [] ys h = absurd (cc)
  any-append_left (x ∷ xs) ys h = ground (arith, any-append_left xs ys)

  any-keep :
      (q : A → Bool) (xs : List A) → any (λ x. q x && p x) xs ≡ true → any p (keep q xs) ≡ true
  any-keep q [] h = h
  any-keep q (x ∷ xs) h = elim (Bool-cases (q x)) [
    | inl pass ↦ ground (arith, any-keep q xs)
    | inr fail ↦ ground (arith, any-keep q xs)
  ]

enqueue-any :
    (p : DeliveryTask → Bool) (now next : ℕ) (es : List EnqueueTask) (rows : Rows)
    → any p rows ≡ true
    → any p (enqueue now next es rows) ≡ true
unfolding enqueue
enqueue-any p now next [] rows h = h
enqueue-any p now next (e ∷ es) rows h =
    enqueue-any p now (next + 1) es _ (any-append_left p rows (inserted now next e ∷ []) h)

-- The row is not the fan-out's, and delivers its message.
new_delivery : Engine → DeliveryTask → Endpoint → DeliveryTask → Bool
unfolding delivers
new_delivery e task ep row = not (contains (task.id ∷ []) row.id) && delivers e task ep row

new_delivery-inserted :
    (e : Engine) (task : DeliveryTask) (ep : Endpoint) (now at next : ℕ)
    → task.id < next
    → new_delivery e task ep (inserted at next (deliver_task e now task ep)) ≡ true
unfolding new_delivery delivers is_for is_deliver inserted deliver_task
new_delivery-inserted e task ep now at next h =
    let same : (t : String) → str_eq t t ≡ true = λ t. (eq_iff t t).1 refl in
    rw
      (
        same task.org_id,
        same task.app_id,
        same task.msg_id,
        same ep.row.id,
        same (fallback ep.row.pool e.opts.pool),
      )
      (ground arith)

enqueue-new_delivery :
    (e : Engine) (task : DeliveryTask) (now at next : ℕ) (eps : List Endpoint) (rows : Rows)
    → task.id < next
    → All
        (λ ep.
          any (new_delivery e task ep) (enqueue at next (map (deliver_task e now task) eps) rows)
          ≡ true)
        eps
unfolding enqueue
enqueue-new_delivery e task now at next [] rows h = tt
enqueue-new_delivery e task now at next (ep ∷ eps) rows h = (
  enqueue-any (new_delivery e task ep) at (next + 1) (map (deliver_task e now task) eps) _ (
      any-append_right (new_delivery e task ep) rows
        (inserted at next (deliver_task e now task ep) ∷ [])
        (rw (new_delivery-inserted e task ep now at next h) refl)),
  enqueue-new_delivery e task now at (next + 1) eps _ (omega (arith, h)),
)

notify-rows :
    (now next : ℕ) (oks : List Bool) (ps : List ℕ) (rows : Rows)
    → perform_all now next oks (map notify ps) rows ≡ rows
unfolding perform_all perform
notify-rows now next [] ps rows = refl
notify-rows now next (ok ∷ oks) [] rows = refl
notify-rows now next (true ∷ oks) (p ∷ ps) rows = notify-rows now next oks ps rows
notify-rows now next (false ∷ oks) (p ∷ ps) rows = notify-rows now next oks ps rows

expanded-IsKept :
    (e : Engine) (task : DeliveryTask) (now at next : ℕ) (eps : List Endpoint) (rows : Rows)
    → task.id < next
    → All
        (λ ep.
          IsKept e task
            (Queue.complete task.id (enqueue at next (map (deliver_task e now task) eps) rows))
            ep)
        eps
unfolding IsKept Queue.complete complete_many new_delivery
expanded-IsKept e task now at next eps rows h =
    All-imp _ _ eps
      (λ ep made. inr (
        any-keep (delivers e task ep) (λ x. not (contains (task.id ∷ []) x.id))
          (enqueue at next (map (deliver_task e now task) eps) rows) made))
      (enqueue-new_delivery e task now at next eps rows h)

-- After the fan-out's calls, none of the matching endpoints is lost.
AllKept : Engine → DeliveryTask → List Endpoint → Rows → Type 0
AllKept e task eps rows = All (IsKept e task rows) eps

AllKept-queued :
    (e : Engine) (task : DeliveryTask) (eps : List Endpoint) (rows : Rows)
    → contains (ids rows) task.id ≡ true
    → AllKept e task eps rows
unfolding AllKept IsKept
AllKept-queued e task eps rows h = All-of _ (λ x. inl h) eps

expansion-AllKept :
    (e : Engine) (task : DeliveryTask) (at now next : ℕ) (eps : List Endpoint) (fails : Bool)
    (oks : List Bool) (partitions : List ℕ) (rows : Rows)
    → contains (ids rows) task.id ≡ true
    → task.id < next
    → AllKept e task eps (
        perform_all now next oks
          (expansion fails (map (deliver_task e at task) eps) task.id partitions)
          rows)
unfolding expansion perform_all perform AllKept
expansion-AllKept e task at now next eps fails [] partitions rows h fresh =
    AllKept-queued e task eps rows h
expansion-AllKept e task at now next eps true (true ∷ []) partitions rows h fresh =
    AllKept-queued e task eps rows h
expansion-AllKept e task at now next eps true (true ∷ ok ∷ oks) partitions rows h fresh =
    AllKept-queued e task eps rows h
expansion-AllKept e task at now next eps true (false ∷ []) partitions rows h fresh =
    AllKept-queued e task eps rows h
expansion-AllKept e task at now next eps true (false ∷ ok ∷ oks) partitions rows h fresh =
    AllKept-queued e task eps rows h
expansion-AllKept e task at now next eps false (false ∷ oks) partitions rows h fresh =
    rw (notify-rows now next oks (unique partitions) rows) (AllKept-queued e task eps rows h)
expansion-AllKept e task at now next eps false (true ∷ oks) partitions rows h fresh =
    rw
      (notify-rows now next oks (unique partitions)
        (Queue.complete task.id (enqueue now next (map (deliver_task e at task) eps) rows)))
      (expanded-IsKept e task at now next eps rows fresh)

expand_to-AllKept :
    (e : Engine) (a : FanoutAnswers) (task : DeliveryTask) (s : Snapshot) (eps : List Endpoint)
    (now next : ℕ) (oks : List Bool) (rows : Rows)
    → contains (ids rows) task.id ≡ true
    → task.id < next
    → AllKept e task eps (perform_all now next oks (expand_to e a task s eps) rows)
unfolding expand_to AllKept
expand_to-AllKept e a task s [] now next oks rows h fresh = tt
expand_to-AllKept e a task s (ep ∷ eps) now next oks rows h fresh =
    expansion-AllKept e task a.now now next (ep ∷ eps) a.transaction_fails oks _ rows h fresh

-- A fan-out loses no delivery: whichever of its calls take effect, and wherever the worker dies
-- among them, each endpoint of the snapshot that matches the message still has the fan-out's row in
-- the queue, or a fresh deliver row that carries the message to it, in its partition and its pool. The
-- row is in the queue before, and its id is one that the queue's sequence has given out.
pub handle_fanout-IsKept :
    (e : Engine) (a : FanoutAnswers) (task : DeliveryTask) (s : Snapshot) (m : Message)
    (now next : ℕ) (oks : List Bool) (rows : Rows)
    → a.snapshot ≡ some s
    → a.message ≡ found m
    → contains (ids rows) task.id ≡ true
    → task.id < next
    → All
        (IsKept e task (perform_all now next oks (handle_fanout e a task) rows))
        (matching_endpoints s task.app_id m.event_type m.channels)
unfolding handle_fanout with_snapshot with_message AllKept
handle_fanout-IsKept e a task s m now next oks rows current message h fresh =
    rw (current, message)
      (expand_to-AllKept e (record a { snapshot = some s; message = found m }) task s
        (matching_endpoints s task.app_id m.event_type m.channels) now next oks rows h fresh)

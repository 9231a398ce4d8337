-- ===== src/UseCases/Replay/Groups.antt =====
-- The rows of a replay, and its groups by message.
use mathlib.Core.List.{append_assoc, append-nil}
use huxio.Prelude.{
  ℕ, suc, ◌+◌, ◌≡◌, refl, sym, ◌∙◌, ap, Bool, true, false, none, some, List, [], ◌∷◌, ◌++◌, map,
  String, str_eq, arith, if◌then◌else◌, length, length-append, All, All-append,
}
use huxio.Domain.Task.{DeliveryTask, bulk_replay, deliver}
use huxio.Store.Queue.{EnqueueTask, Rows, enqueue, inserted}
use huxio.Store.Attempts.{FailedDelivery}
use huxio.UseCases.{AppRef}
use huxio.UseCases.Replay.{Groups, replay_task, add_delivery, by_message}

-- The rows of an enqueue.
abbrev pub rows_of : ℕ → ℕ → List EnqueueTask → Rows
rows_of now next [] = []
rows_of now next (e ∷ es) = inserted now next e ∷ rows_of now (next + 1) es

pub enqueue-append :
    (now next : ℕ) (es : List EnqueueTask) (rows : Rows)
    → enqueue now next es rows ≡ rows ++ rows_of now next es
unfolding enqueue
enqueue-append now next [] rows = sym (append-nil rows)
enqueue-append now next (e ∷ es) rows =
    enqueue-append now (next + 1) es (rows ++ inserted now next e ∷ [])
    ∙ append_assoc rows (inserted now next e ∷ []) (rows_of now (next + 1) es)

pub length-rows_of :
    (now next : ℕ) (es : List EnqueueTask) → length (rows_of now next es) ≡ length es
length-rows_of now next [] = refl
length-rows_of now next (e ∷ es) = ap suc (length-rows_of now (next + 1) es)

module _ (P : FailedDelivery → Type 0) where
  -- A task that sends such a delivery once more: it is ready, and not retried.
  pub record IsReplayOf (t : DeliveryTask) : Type 0 where
    pub delivery : FailedDelivery
    pub has : P delivery
    pub msg_id : t.msg_id ≡ delivery.msg_id
    pub endpoint_id : t.endpoint_id ≡ some delivery.endpoint_id
    pub kind : t.kind ≡ deliver
    pub trigger_type : t.trigger_type ≡ bulk_replay
    pub unlocked : t.locked_until ≡ none

  pub rows_of-IsReplayOf :
      (app : AppRef) (pool : String) (created_at now next : ℕ) (ds : List FailedDelivery)
      → All P ds
      → All IsReplayOf (rows_of now next (map (replay_task app pool created_at bulk_replay now) ds))
  unfolding replay_task inserted
  rows_of-IsReplayOf app pool created_at now next [] ps = tt
  rows_of-IsReplayOf app pool created_at now next (d ∷ ds) ps = (
    record {
      delivery = d;
      has = ps.0;
      msg_id = refl;
      endpoint_id = refl;
      kind = refl;
      trigger_type = refl;
      unlocked = refl;
    },
    rows_of-IsReplayOf app pool created_at now (next + 1) ds ps.1,
  )

  abbrev pub total : Groups → ℕ
  total [] = 0
  total ((msg_id, ds) ∷ groups) = length ds + total groups

  abbrev pub AllIn : Groups → Type 0
  AllIn groups = All (λ (g : String × List FailedDelivery). All P g.1) groups

  -- Grouping loses and adds nothing.
  total-add_delivery :
      (d : FailedDelivery) (groups : Groups) → total (add_delivery d groups) ≡ total groups + 1
  unfolding add_delivery
  total-add_delivery d [] = refl
  total-add_delivery d ((msg_id, ds) ∷ groups) =
      ground (arith, total-add_delivery d groups, length-append ds (d ∷ []))

  add_delivery-AllIn :
      (d : FailedDelivery) (groups : Groups) → P d → AllIn groups → AllIn (add_delivery d groups)
  unfolding add_delivery
  add_delivery-AllIn d [] p ps = ((p, tt), tt)
  add_delivery-AllIn d ((msg_id, ds) ∷ groups) p ps =
      cases (str_eq msg_id d.msg_id) (add_delivery-AllIn d groups p ps.1)
    where
      cases :
          (b : Bool)
          → AllIn (add_delivery d groups)
          → AllIn
              (if b then (msg_id, ds ++ d ∷ []) ∷ groups else (msg_id, ds) ∷ add_delivery d groups)
      cases true rest = (All-append P ds (d ∷ []) ps.0 (p, tt), ps.1)
      cases false rest = (ps.0, rest)

  pub by_message-AllIn :
      (ds : List FailedDelivery) (groups : Groups)
      → All P ds
      → AllIn groups
      → AllIn (by_message ds groups) × (total (by_message ds groups) ≡ length ds + total groups)
  unfolding by_message
  by_message-AllIn [] groups ps gs = (gs, omega arith)
  by_message-AllIn (d ∷ ds) groups ps gs =
      let (all, sum) =
        by_message-AllIn ds (add_delivery d groups) ps.1 (add_delivery-AllIn d groups ps.0 gs) in
      (all, omega (arith, sum, total-add_delivery d groups))

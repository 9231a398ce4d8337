-- ===== src/Store/Queue.antt =====
-- internal/adapters/outbound/persistence/postgres/queue_repo.go: the work queue as a table.
-- `now` is the database's now(). A statement that fails changes nothing, and is not modelled: the
-- caller treats the failure as a value. Claiming locks its rows in one statement, so SKIP LOCKED
-- skips nothing in a sequence of statements. RETURNING gives the rows in the order of the inner
-- SELECT here, and in any order in Postgres.
pub mod Select
pub mod Locks
pub mod Persistence
mod Examples
use huxio.Prelude.{
  ℕ, ◌+◌, ◌*◌, ◌/◌, Bool, true, false, not, ◌&&◌, ◌||◌, Option, none, some, List, [], ◌∷◌, ◌++◌,
  map, String, str_eq, ltb, leb, ◌==◌, if◌then◌else◌, is_set, contains, keep, take, length, sort_by,
}
use huxio.Domain.Task.{DeliveryTask, TaskKind, TriggerType}

pub record ClaimRequest : Type 0 where
  pub pool : String
  pub partitions : List ℕ
  pub owner_id : String
  pub lock_ttl : ℕ
  pub limit : ℕ

abbrev pub Rows : Type 0
Rows = List DeliveryTask

-- The WHERE clause of the inner SELECT.
unfoldable pub ready : ℕ → ClaimRequest → DeliveryTask → Bool
ready now req t =
    str_eq t.pool req.pool
    && contains req.partitions t.partition_key
    && leb t.visible_at now
    && not (is_set t.locked_until)
    && not (is_set t.deleted_at)

-- ORDER BY visible_at, id
unfoldable pub before : DeliveryTask → DeliveryTask → Bool
before a b = ltb a.visible_at b.visible_at || (a.visible_at == b.visible_at && leb a.id b.id)

unfoldable pub order_rows : Rows → Rows
unfolding before
order_rows = sort_by before

unfoldable pub selected : ℕ → ClaimRequest → Rows → Rows
selected now req rows = take req.limit (order_rows (keep (ready now req) rows))

abbrev pub ids : Rows → List ℕ
ids [] = []
ids (t ∷ ts) = t.id ∷ ids ts

-- The SET clause of the claim.
abbrev pub locked : ℕ → ClaimRequest → DeliveryTask → DeliveryTask
locked now req t = record t {
  locked_by = some req.owner_id;
  locked_until = some (now + req.lock_ttl);
}

abbrev pub unlocked : DeliveryTask → DeliveryTask
unlocked t = record t { locked_by = none; locked_until = none }

-- UPDATE … WHERE a condition holds.
unfoldable pub update_where : (DeliveryTask → Bool) → (DeliveryTask → DeliveryTask) → Rows → Rows
update_where p f [] = []
update_where p f (t ∷ ts) = (if p t then f t else t) ∷ update_where p f ts

abbrev pub no_claim : ClaimRequest → Bool
no_claim req = (length req.partitions == 0) || (req.limit == 0)

unfoldable pub claim : ℕ → ClaimRequest → Rows → Rows × List DeliveryTask
claim now req rows =
    let picked = selected now req rows in
    if no_claim req then (rows, []) else (
      update_where (λ t. contains (ids picked) t.id) (locked now req) rows,
      map (locked now req) picked,
    )

-- `DELETE … WHERE id = ANY`; `Complete` deletes one id.
unfoldable pub complete_many : List ℕ → Rows → Rows
complete_many done rows = keep (λ t. not (contains done t.id)) rows

unfoldable pub complete : ℕ → Rows → Rows
unfolding complete_many
complete id rows = complete_many (id ∷ []) rows

-- The delay is handed over in whole milliseconds.
abbrev pub whole_ms : ℕ → ℕ
whole_ms delay = delay / 1_000_000 * 1_000_000

unfoldable pub retry : ℕ → ℕ → ℕ → Rows → Rows
unfolding update_where
retry now id delay rows =
    update_where (λ t. t.id == id)
      (λ t. unlocked (record t { attempt = t.attempt + 1; visible_at = now + whole_ms delay })) rows

unfoldable pub defer : ℕ → ℕ → ℕ → Rows → Rows
unfolding update_where
defer now id delay rows =
    update_where (λ t. t.id == id) (λ t. unlocked (record t { visible_at = now + whole_ms delay }))
      rows

unfoldable pub release : List ℕ → Rows → Rows
unfolding update_where
release given rows = update_where (λ t. contains given t.id) unlocked rows

-- The lock has run out: `locked_until < now()`, false for a NULL.
abbrev pub lock_expired : ℕ → DeliveryTask → Bool
lock_expired now t = elim t.locked_until [ none ↦ false | some until ↦ ltb until now ]

unfoldable pub rescue_stuck : ℕ → Rows → Rows
unfolding update_where
rescue_stuck now rows = update_where (lock_expired now) unlocked rows

-- What a caller enqueues.
pub record EnqueueTask : Type 0 where
  pub partition_key : ℕ
  pub pool : String
  pub kind : TaskKind
  pub org_id : String
  pub app_id : String
  pub msg_id : String
  pub msg_created_at : ℕ
  pub endpoint_id : Option String
  pub attempt : ℕ
  pub trigger_type : TriggerType
  pub visible_at : ℕ

-- The inserted row, with the id of the sequence and the clock's time for a zero `VisibleAt`.
unfoldable pub inserted : ℕ → ℕ → EnqueueTask → DeliveryTask
inserted now id e = record {
  id = id;
  partition_key = e.partition_key;
  pool = e.pool;
  kind = e.kind;
  org_id = e.org_id;
  app_id = e.app_id;
  msg_id = e.msg_id;
  msg_created_at = e.msg_created_at;
  endpoint_id = e.endpoint_id;
  attempt = e.attempt;
  trigger_type = e.trigger_type;
  visible_at = if e.visible_at == 0 then now else e.visible_at;
  locked_by = none;
  locked_until = none;
  created_at = now;
  deleted_at = none;
}

-- The new rows take the ids from `next` on.
unfoldable pub enqueue : ℕ → ℕ → List EnqueueTask → Rows → Rows
unfolding inserted
enqueue now next [] rows = rows
enqueue now next (e ∷ es) rows = enqueue now (next + 1) es (rows ++ inserted now next e ∷ [])

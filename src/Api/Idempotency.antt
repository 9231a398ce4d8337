-- ===== src/Api/Idempotency.antt =====
-- internal/adapters/inbound/http/middleware/idempotency.go. The handler is any function on a state;
-- its body is what it wrote. The hash of the library blake2b is a parameter.
pub mod Once
mod Examples
use Prim.Native.String
use huxio.Prelude.{
  ℕ, ◌*◌, Bool, true, false, not, ◌&&◌, ◌||◌, Option, none, some, List, [], ◌∷◌, String, str_eq,
  leb, if◌then◌else◌, ℤ, positive_or, or_else,
}
use huxio.Domain.Errors.{AppError, new_internal_error, new_conflict_error}
use huxio.Dispatch.Breaker.{second}
use huxio.Store.Messages.{Answer, answers, fails}
use huxio.Store.Idempotency.{
  Keys, IdempotencyRecord, IdempotencyStatus, in_progress, complete, Begun, won, existing, begin,
  complete_key, abort_key,
}

pub record IdempotencyOptions : Type 0 where
  pub lock_ttl : ℕ
  pub response_ttl : ℕ

-- The defaulting at the start of `Idempotency`.
unfoldable pub idempotency_options : ℤ → ℤ → IdempotencyOptions
idempotency_options lock response = record {
  lock_ttl = positive_or lock (30 * second);
  response_ttl = positive_or response (43_200 * second);
}

pub record Request : Type 0 where
  pub org_id : String
  pub method : String
  pub path : String
  pub client_key : String

-- What a handler answers: its error, or the status and the body that it wrote.
pub data Reply : Type 0 where
  responds : ℕ → List ℕ → Reply
  refuses : AppError → Reply

-- When the two calls of a request are made, what others do to the table meanwhile, and which of the
-- calls work.
pub record Around : Type 0 where
  pub begins_at : ℕ
  pub ends_at : ℕ
  pub claims : Bool
  pub reads : Bool
  pub releases : Bool
  pub stores : Bool
  pub meanwhile : Keys → Keys
  pub while_handled : Keys → Keys

-- `idempotencyKey`, before the hash
unfoldable pub key_text : Request → String
key_text r = String.◌++◌ r.org_id (
    String.◌++◌ "\0" (
      String.◌++◌ r.method (String.◌++◌ "\0" (String.◌++◌ r.path (String.◌++◌ "\0" r.client_key)))))

-- `replay`; a record without a status is replayed as 200.
unfoldable pub replay : IdempotencyRecord → Reply
replay r = elim r.status [
  | in_progress ↦
      refuses (new_conflict_error "a request with this Idempotency-Key is already in progress")
  | complete ↦ responds (or_else r.status_code 200) r.response
]

-- The end of a request that was handled: a response below 500 is stored, and else the key is released.
unfoldable pub finish : IdempotencyOptions → Around → String → Reply → Keys → Keys
finish opts t key (refuses e) rows = if t.releases then abort_key key rows else rows
finish opts t key (responds status body) rows =
    if leb 500 status
    then if t.releases then abort_key key rows else rows
    else if t.stores
    then complete_key t.ends_at key status body opts.response_ttl rows
    else rows

module _ {S : Type 0} where
  -- After `Begin`.
  unfoldable pub begun :
      IdempotencyOptions
      → Around
      → String
      → (S → S × Reply)
      → S
      → Keys × Answer Begun
      → S × Keys × Reply
  unfolding replay finish
  begun opts t key next s (rows, fails e) = (s, rows, refuses new_internal_error)
  begun opts t key next s (rows, answers (existing r)) = (s, rows, replay r)
  begun opts t key next s (rows, answers won) =
      let (s', reply) = next s in (s', finish opts t key reply (t.while_handled rows), reply)

  -- The middleware, around the handler `next`.
  unfoldable pub idempotency :
      (String → String)
      → IdempotencyOptions
      → Around
      → Request
      → (S → S × Reply)
      → S
      → Keys
      → S × Keys × Reply
  unfolding begun key_text
  idempotency hash opts t r next s rows =
      if not (str_eq r.method "POST") || str_eq r.client_key ""
      then (let (s', reply) = next s in (s', t.while_handled rows, reply))
      else begun opts t (hash (key_text r)) next s
          (begin t.claims t.reads t.meanwhile t.begins_at (hash (key_text r)) opts.lock_ttl rows)

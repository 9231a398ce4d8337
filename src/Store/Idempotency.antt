-- ===== src/Store/Idempotency.antt =====
-- internal/adapters/outbound/persistence/postgres/idempotency_repo.go: the cached responses, with one
-- row for a key. Times are the database's.
pub mod Exclusive
use huxio.Prelude.{
  ℕ, ◌+◌, Bool, true, false, not, ◌&&◌, Option, none, some, List, [], ◌∷◌, ◌++◌, String, str_eq,
  ltb, if◌then◌else◌, any, keep,
}
use huxio.Store.Messages.{Answer, answers, fails, not_found, failed}

pub data IdempotencyStatus : Type 0 where
  in_progress complete : IdempotencyStatus

pub record IdempotencyRecord : Type 0 where
  pub key : String
  pub status : IdempotencyStatus
  pub response : List ℕ
  pub status_code : Option ℕ
  pub expires_at : ℕ
  pub created_at : ℕ

abbrev pub Keys : Type 0
Keys = List IdempotencyRecord

abbrev pub started : ℕ → String → ℕ → IdempotencyRecord
started now key ttl = record {
  key = key;
  status = in_progress;
  response = [];
  status_code = none;
  expires_at = now + ttl;
  created_at = now;
}

-- INSERT … ON CONFLICT DO UPDATE … WHERE expires_at < now() RETURNING
unfoldable pub claim_key : ℕ → String → ℕ → Keys → Keys × Bool
claim_key now key ttl [] = (started now key ttl ∷ [], true)
claim_key now key ttl (r ∷ rs) =
    let (rest, won) = claim_key now key ttl rs in
    if str_eq r.key key
    then if ltb r.expires_at now then (started now key ttl ∷ rs, true) else (r ∷ rs, false)
    else (r ∷ rest, won)

-- `get`
unfoldable pub find_key : String → Keys → Option IdempotencyRecord
find_key key [] = none
find_key key (r ∷ rs) = if str_eq r.key key then some r else find_key key rs

-- What `Begin` answers: the caller handles the request, or this record stands in its way.
pub data Begun : Type 0 where
  won : Begun
  existing : IdempotencyRecord → Begun

abbrev pub found_record : Option IdempotencyRecord → Answer Begun
found_record none = fails not_found
found_record (some r) = answers (existing r)

-- `Begin`. Between its two statements, others may change the table; either may fail.
unfoldable pub begin : Bool → Bool → (Keys → Keys) → ℕ → String → ℕ → Keys → Keys × Answer Begun
begin claims reads others now key ttl rows =
    let (claimed, is_won) = claim_key now key ttl rows in
    if not claims then (rows, fails failed) else if is_won then (claimed, answers won) else (
      others claimed,
      if reads then found_record (find_key key (others claimed)) else fails failed,
    )

-- `Complete`: whatever the row of the key is.
unfoldable pub complete_key : ℕ → String → ℕ → List ℕ → ℕ → Keys → Keys
complete_key now key code response ttl [] = []
complete_key now key code response ttl (r ∷ rs) =
    (if str_eq r.key key
      then record r {
        status = complete;
        status_code = some code;
        response = response;
        expires_at = now + ttl;
      }
      else r)
    ∷ complete_key now key code response ttl rs

abbrev pub is_in_progress : IdempotencyStatus → Bool
is_in_progress in_progress = true
is_in_progress complete = false

-- `Abort`: an in-progress row of the key, whoever started it.
unfoldable pub abort_key : String → Keys → Keys
abort_key key rows = keep (λ r. not (str_eq r.key key && is_in_progress r.status)) rows

-- `PurgeExpired`
unfoldable pub purge_expired : ℕ → Keys → Keys
purge_expired now rows = keep (λ r. not (ltb r.expires_at now)) rows

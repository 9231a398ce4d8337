-- ===== src/Store/Messages.antt =====
-- internal/adapters/outbound/persistence/postgres/message_repo.go with the table's keys, which
-- migrations/schema/00001_initial_schema.sql declares, application_repo.go and store.go.
use huxio.Prelude.{
  ℕ, Bool, false, not, ◌&&◌, ◌||◌, Option, none, some, List, [], ◌∷◌, ◌++◌, String, str_eq, ◌==◌,
  if◌then◌else◌, is_set, any,
}

-- What a repository call answers. `ErrNotFound` and `ErrConflict` stand apart from other errors.
pub data RepoError : Type 0 where
  not_found conflict failed : RepoError

pub data Answer {ℓ} (A : Type ℓ) : Type ℓ where
  answers : A → Answer A
  fails : RepoError → Answer A

pub record Message : Type 0 where
  pub id : String
  pub created_at : ℕ
  pub org_id : String
  pub app_id : String
  pub event_type : String
  pub uid : Option String
  pub channels : List String
  pub payload : List ℕ
  pub payload_size : ℕ
  pub expires_at : ℕ
  pub deleted_at : Option ℕ

-- NULLs are never equal in a unique index.
abbrev pub same_uid : Option String → Option String → Bool
same_uid none b = false
same_uid (some a) none = false
same_uid (some a) (some b) = str_eq a b

-- PRIMARY KEY (id, created_at), and the partial UNIQUE INDEX on (app_id, uid, created_at).
unfoldable pub clashes : Message → Message → Bool
clashes m r =
    (str_eq m.id r.id && m.created_at == r.created_at)
    || (str_eq m.app_id r.app_id
        && same_uid m.uid r.uid
        && m.created_at == r.created_at
        && not (is_set r.deleted_at))

-- `CreateMessage`, on a connection that works or not. The new row is a live one.
unfoldable pub create_message : Bool → Message → List Message → Answer (List Message)
create_message works m rows =
    if not works
    then fails failed
    else if any (clashes m) rows
    then fails conflict
    else answers (rows ++ m ∷ [])

-- How the end of a transaction goes: it may be committed although the reply is lost.
pub data Commit : Type 0 where
  commits aborts loses_reply : Commit

-- The end of `WithinTransaction`.
unfoldable pub commit {ℓ} : {S : Type ℓ} → Commit → S → S → S × Answer (Unit {0})
commit commits before after = (after, answers tt)
commit aborts before after = (before, fails failed)
commit loses_reply before after = (after, fails failed)

-- `WithinTransaction`, outside another transaction.
unfoldable pub within_transaction {ℓ} :
    {S : Type ℓ} → Bool → Commit → (S → Answer S) → S → S × Answer (Unit {0})
unfolding commit
within_transaction begins end body s =
    if not begins
    then (s, fails failed)
    else elim (body s) [ answers after ↦ commit end s after | fails e ↦ (s, fails e) ]

-- ===== src/Store/EventTypes.antt =====
-- internal/adapters/outbound/persistence/postgres/event_type_repo.go: the event types, of which the
-- table has one row for an organization and a name, its primary key. No schemas are the empty text.
pub mod Names
use huxio.Prelude.{
  ℕ, Bool, true, false, not, ◌&&◌, Option, none, some, List, [], ◌∷◌, String, str_eq, any, is_set,
  if◌then◌else◌,
}
use huxio.Domain.Endpoint.{EventType}
use huxio.Store.Messages.{Answer, answers, fails, not_found, conflict, failed}

abbrev pub is_named : String → String → EventType → Bool
is_named org_id name e = str_eq e.org_id org_id && str_eq e.name name

-- An archived row that is created again.
abbrev pub revived : EventType → EventType → EventType
revived et r = record r {
  description = et.description;
  schemas = et.schemas;
  updated_at = et.created_at;
  deleted_at = none;
}

-- INSERT … ON CONFLICT DO UPDATE … WHERE deleted_at IS NOT NULL, and whether it affects a row.
unfoldable pub upsert : EventType → List EventType → List EventType × Bool
upsert et [] = (record et { updated_at = et.created_at; deleted_at = none } ∷ [], true)
upsert et (r ∷ rows) =
    let (rest, done) = upsert et rows in
    if is_named et.org_id et.name r
    then if is_set r.deleted_at then (revived et r ∷ rows, true) else (r ∷ rows, false)
    else (r ∷ rest, done)

-- `CreateEventType`
unfoldable pub create_event_type : Bool → EventType → List EventType → Answer (List EventType)
create_event_type works et rows =
    let (after, done) = upsert et rows in
    if not works then fails failed else if done then answers after else fails conflict

unfoldable pub update_matching :
    (EventType → Bool) → (EventType → EventType) → List EventType → List EventType
update_matching p f [] = []
update_matching p f (r ∷ rows) = (if p r then f r else r) ∷ update_matching p f rows

-- An UPDATE, and ErrNotFound where it affects no row.
unfoldable pub update_if :
    Bool → (EventType → Bool) → (EventType → EventType) → List EventType → Answer (List EventType)
update_if works p f rows =
    if not works
    then fails failed
    else if any p rows
    then answers (update_matching p f rows)
    else fails not_found

-- `UpdateEventType`
unfoldable pub update_event_type : Bool → EventType → List EventType → Answer (List EventType)
update_event_type works et rows =
    update_if works (λ r. is_named et.org_id et.name r && not (is_set r.deleted_at))
      (λ r. record r {
        description = et.description;
        schemas = et.schemas;
        updated_at = et.updated_at;
      })
      rows

-- `setDeletedAt`, for the rows that are archived, or that are not.
unfoldable pub set_deleted_at :
    Bool
    → ℕ
    → String
    → String
    → Option ℕ
    → (Option ℕ → Bool)
    → List EventType
    → Answer (List EventType)
set_deleted_at works now org_id name at predicate rows =
    update_if works (λ r. is_named org_id name r && predicate r.deleted_at)
      (λ r. record r { deleted_at = at; updated_at = now }) rows

-- `ArchiveEventType`
unfoldable pub archive_event_type :
    Bool → ℕ → String → String → List EventType → Answer (List EventType)
archive_event_type works now org_id name rows =
    set_deleted_at works now org_id name (some now) (λ at. not (is_set at)) rows

-- `UnarchiveEventType`
unfoldable pub unarchive_event_type :
    Bool → ℕ → String → String → List EventType → Answer (List EventType)
unarchive_event_type works now org_id name rows =
    set_deleted_at works now org_id name none is_set rows

-- `GetEventType`, archived ones included: the key admits one row.
unfoldable pub get_event_type : Bool → String → String → List EventType → Answer EventType
get_event_type works org_id name [] = if works then fails not_found else fails failed
get_event_type works org_id name (r ∷ rows) =
    let rest = get_event_type works org_id name rows in
    if not works then fails failed else if is_named org_id name r then answers r else rest

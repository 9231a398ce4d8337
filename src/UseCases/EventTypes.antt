-- ===== src/UseCases/EventTypes.antt =====
-- internal/application/usecases/event_type_usecase.go: the event catalogue of an organization. The
-- library's test of JSON is a parameter.
pub mod Kept
mod Examples
use Prim.Native.String
use Prim.Native.Char.{code}
use huxio.Prelude.{
  ℕ, Bool, true, false, not, ◌&&◌, ◌||◌, Option, none, some, List, [], ◌∷◌, ◌++◌, String, str_eq,
  ltb, leb, ◌==◌, length, bytes, any, is_set, or_else, if◌then◌else◌,
}
use huxio.Utils.{is_blank}
use huxio.Domain.Endpoint.{EventType}
use huxio.Domain.Errors.{
  Result, ok, err, AppError, business, ◌>>=◌, ◌>>◌, fail_if, new_not_found_error,
  new_conflict_error, new_validation_error, new_internal_error,
}
use huxio.Store.Messages.{Answer, answers, fails, RepoError, not_found, conflict, failed}
use huxio.Store.EventTypes
use huxio.Store.EventTypes.{get_event_type}

pub record Catalogue : Type 0 where
  pub rows : List EventType
  pub announced : List String

-- The time of a call, and which of its calls work.
pub record CatalogueAnswers : Type 0 where
  pub now : ℕ
  pub reads : Bool
  pub writes : Bool

-- A byte of `^[a-zA-Z0-9\-_.]+$`
abbrev pub is_name_byte : ℕ → Bool
is_name_byte c =
    (leb b'a' c && leb c b'z')
    || (leb b'A' c && leb c b'Z')
    || (leb b'0' c && leb c b'9')
    || c == b'-'
    || c == b'_'
    || c == b'.'

-- `validateEventTypeName`
unfoldable pub validate_event_type_name : String → Result (Unit {0})
validate_event_type_name name = do
  fail_if (is_blank name) (new_validation_error "name is required")
  fail_if (ltb 256 (length (bytes name)))
      (new_validation_error "name must be at most 256 characters")
  fail_if (any (λ c. not (is_name_byte c)) (bytes name))
      (new_validation_error "name may contain only letters, digits, dots, dashes and underscores")

-- No schemas are the empty text.
abbrev pub check_schemas : (String → Bool) → String → Result (Unit {0})
check_schemas json_valid schemas =
    fail_if (not (str_eq schemas "") && not (json_valid schemas))
      (new_validation_error "schemas must be well-formed JSON")

abbrev pub not_found_or_internal : RepoError → AppError
not_found_or_internal not_found = new_not_found_error "event type"
not_found_or_internal _ = new_internal_error

abbrev pub exists_or_internal : RepoError → AppError
exists_or_internal conflict = new_conflict_error "an event type with this name already exists"
exists_or_internal _ = new_internal_error

-- The write at the end of a call, and the announcement after it if it worked.
unfoldable pub conclude {ℓ} :
    {A : Type ℓ}
    → Catalogue
    → String
    → (RepoError → AppError)
    → A
    → Answer (List EventType)
    → Catalogue × Result A
conclude s org_id report a (answers rows) =
    (record { rows = rows; announced = s.announced ++ org_id ∷ [] }, ok a)
conclude s org_id report a (fails e) = (s, err (report e))

pub record CreateEventTypeInput : Type 0 where
  pub org_id : String
  pub name : String
  pub description : String
  pub schemas : String

abbrev pub new_event_type : ℕ → CreateEventTypeInput → EventType
new_event_type now i = record {
  org_id = i.org_id;
  name = i.name;
  description = i.description;
  schemas = i.schemas;
  created_at = now;
  updated_at = now;
  deleted_at = none;
}

-- The checks of `CreateEventType`.
unfoldable pub check_new : (String → Bool) → CreateEventTypeInput → Result (Unit {0})
unfolding validate_event_type_name
check_new json_valid i = do validate_event_type_name i.name; check_schemas json_valid i.schemas

-- `CreateEventType`
unfoldable pub create_event_type :
    (String → Bool)
    → CatalogueAnswers
    → CreateEventTypeInput
    → Catalogue
    → Catalogue × Result EventType
create_event_type json_valid a i s = elim (check_new json_valid i) [
  | err e ↦ (s, err e)
  | ok _ ↦
      conclude s i.org_id exists_or_internal (new_event_type a.now i)
        (EventTypes.create_event_type a.writes (new_event_type a.now i) s.rows)
]

pub record UpdateEventTypeInput : Type 0 where
  pub description : Option String
  pub schemas : String

-- What `UpdateEventType` writes: an archived event type is not updated.
unfoldable pub apply_update :
    (String → Bool) → CatalogueAnswers → UpdateEventTypeInput → EventType → Result EventType
apply_update json_valid a i et = do
  fail_if (is_set et.deleted_at) (record {
    kind = business;
    code = "business_rule";
    message = "cannot update an archived event type";
  })
  check_schemas json_valid i.schemas
  ok (record et {
    description = or_else i.description et.description;
    schemas = if str_eq i.schemas "" then et.schemas else i.schemas;
    updated_at = a.now;
  })

-- `GetEventType`
unfoldable pub look_up : CatalogueAnswers → String → String → List EventType → Result EventType
look_up a org_id name rows = elim (get_event_type a.reads org_id name rows) [
  | answers et ↦ ok et
  | fails e ↦ err (not_found_or_internal e)
]

-- The event type as an update leaves it, or the error of its checks.
unfoldable pub prepare_update :
    (String → Bool)
    → CatalogueAnswers
    → String
    → String
    → UpdateEventTypeInput
    → List EventType
    → Result EventType
unfolding look_up apply_update
prepare_update json_valid a org_id name i rows = do
  et ← look_up a org_id name rows
  apply_update json_valid a i et

-- `UpdateEventType`
unfoldable pub update_event_type :
    (String → Bool)
    → CatalogueAnswers
    → String
    → String
    → UpdateEventTypeInput
    → Catalogue
    → Catalogue × Result EventType
update_event_type json_valid a org_id name i s =
    elim (prepare_update json_valid a org_id name i s.rows) [
      | err e ↦ (s, err e)
      | ok et ↦
          conclude s org_id not_found_or_internal et
            (EventTypes.update_event_type a.writes et s.rows)
    ]

-- `ArchiveEventType`
unfoldable pub archive_event_type :
    CatalogueAnswers → String → String → Catalogue → Catalogue × Result (Unit {0})
archive_event_type a org_id name s =
    conclude s org_id not_found_or_internal tt
      (EventTypes.archive_event_type a.writes a.now org_id name s.rows)

-- `UnarchiveEventType`
unfoldable pub unarchive_event_type :
    CatalogueAnswers → String → String → Catalogue → Catalogue × Result (Unit {0})
unarchive_event_type a org_id name s =
    conclude s org_id not_found_or_internal tt
      (EventTypes.unarchive_event_type a.writes a.now org_id name s.rows)

-- ===== src/Store/Applications.antt =====
-- internal/adapters/outbound/persistence/postgres/application_repo.go, with the table's keys. A row
-- without metadata has those of an empty object.
use huxio.Prelude.{
  ℕ, Bool, not, ◌&&◌, ◌||◌, none, some, List, [], ◌∷◌, ◌++◌, String, str_eq, any, is_set,
  if◌then◌else◌,
}
use huxio.Domain.Endpoint.{Application}
use huxio.Store.Messages.{Answer, answers, fails, not_found, conflict, failed, same_uid}

abbrev pub live : String → Application → Bool
live id a = str_eq a.id id && not (is_set a.deleted_at)

-- UNIQUE (org_id, uid) WHERE deleted_at IS NULL
abbrev pub same_key : Application → Application → Bool
same_key a b = str_eq a.org_id b.org_id && same_uid a.uid b.uid && not (is_set b.deleted_at)

-- `jsonbArg` under COALESCE
abbrev pub metadata_or_empty : String → String
metadata_or_empty metadata = if str_eq metadata "" then "{}" else metadata

abbrev pub stored : Application → Application
stored a = record a {
  metadata = metadata_or_empty a.metadata;
  updated_at = a.created_at;
  deleted_at = none;
}

-- `CreateApplication`, with the primary key
unfoldable pub create_application :
    Bool → Application → List Application → Answer (List Application)
create_application works a rows =
    if not works
    then fails failed
    else if any (λ r. str_eq a.id r.id || same_key a r) rows
    then fails conflict
    else answers (rows ++ stored a ∷ [])

-- The mutable fields.
abbrev pub updated : Application → Application → Application
updated a r = record r {
  uid = a.uid;
  name = a.name;
  rate_limit = a.rate_limit;
  metadata = metadata_or_empty a.metadata;
  updated_at = a.updated_at;
}

unfoldable pub update_rows :
    String → (Application → Application) → List Application → List Application
update_rows id f [] = []
update_rows id f (a ∷ rows) = (if live id a then f a else a) ∷ update_rows id f rows

-- An update of a live row, and ErrNotFound where there is none.
unfoldable pub update_live :
    Bool → String → (Application → Application) → List Application → Answer (List Application)
unfolding update_rows
update_live works id f rows =
    if not works
    then fails failed
    else if any (live id) rows
    then answers (update_rows id f rows)
    else fails not_found

-- `UpdateApplication`; its uid may be another application's.
unfoldable pub update_application :
    Bool → Application → List Application → Answer (List Application)
unfolding update_live
update_application works a rows =
    if works && any (live a.id) rows && any (λ r. not (str_eq a.id r.id) && same_key a r) rows
    then fails conflict
    else update_live works a.id (updated a) rows

-- `DeleteApplication`
unfoldable pub delete_application : Bool → ℕ → String → List Application → Answer (List Application)
unfolding update_live
delete_application works now id rows =
    update_live works id (λ a. record a { deleted_at = some now; updated_at = now }) rows

-- `GetApplication` with an organization and an id, or a uid: one row, or ErrNotFound.
unfoldable pub get_application : Bool → (Application → Bool) → List Application → Answer Application
get_application works p [] = if works then fails not_found else fails failed
get_application works p (a ∷ rows) =
    let rest = get_application works p rows in
    if not works then fails failed else if p a then answers a else rest

abbrev pub has_id : String → String → Application → Bool
has_id org_id id a = str_eq a.org_id org_id && live id a

abbrev pub has_uid : String → String → Application → Bool
has_uid org_id uid a =
    str_eq a.org_id org_id && same_uid a.uid (some uid) && not (is_set a.deleted_at)

-- ===== src/Store/Endpoints.antt =====
-- internal/adapters/outbound/persistence/postgres/endpoint_repo.go, with the table's keys. A NULL
-- filter and an empty one are both the empty list; the column of the current secret has no expiry.
use huxio.Prelude.{
  ℕ, Bool, not, ◌&&◌, ◌||◌, Option, none, some, List, [], ◌∷◌, ◌++◌, String, str_eq, if◌then◌else◌,
  any, is_set,
}
use huxio.Domain.Endpoint.{Endpoint, SealedSecret}
use huxio.Store.Messages.{Answer, answers, fails, not_found, conflict, failed, same_uid}

abbrev pub live : String → Endpoint → Bool
live id e = str_eq e.id id && not (is_set e.deleted_at)

-- UNIQUE (app_id, uid) WHERE deleted_at IS NULL
abbrev pub same_key : Endpoint → Endpoint → Bool
same_key a b = str_eq a.app_id b.app_id && same_uid a.uid b.uid && not (is_set b.deleted_at)

-- What is stored of a new endpoint: it is enabled, and has not failed.
abbrev pub created : Endpoint → Endpoint
created e = record e {
  secret = record { sealed = e.secret.sealed; expires_at = none };
  first_failure_at = none;
  disabled_at = none;
  updated_at = e.created_at;
  deleted_at = none;
}

-- `CreateEndpoint`, with the primary key
unfoldable pub create_endpoint : Bool → Endpoint → List Endpoint → Answer (List Endpoint)
create_endpoint works e rows =
    if not works
    then fails failed
    else if any (λ r. str_eq e.id r.id || same_key e r) rows
    then fails conflict
    else answers (rows ++ created e ∷ [])

-- UPDATE … WHERE id = $1 AND deleted_at IS NULL
unfoldable pub update_rows : String → (Endpoint → Endpoint) → List Endpoint → List Endpoint
update_rows id f [] = []
update_rows id f (e ∷ rows) = (if live id e then f e else e) ∷ update_rows id f rows

-- An update, and ErrNotFound where it affects no row.
unfoldable pub update_live :
    Bool → String → (Endpoint → Endpoint) → List Endpoint → Answer (List Endpoint)
unfolding update_rows
update_live works id f rows =
    if not works
    then fails failed
    else if any (live id) rows
    then answers (update_rows id f rows)
    else fails not_found

-- The mutable fields of an update.
abbrev pub updated : Endpoint → Endpoint → Endpoint
updated e r = record r {
  uid = e.uid;
  url = e.url;
  description = e.description;
  version = e.version;
  rate_limit = e.rate_limit;
  event_types = e.event_types;
  channels = e.channels;
  headers = e.headers;
  updated_at = e.updated_at;
}

-- `UpdateEndpoint`; its uid may belong to another endpoint of the application.
unfoldable pub update_endpoint : Bool → Endpoint → List Endpoint → Answer (List Endpoint)
unfolding update_live
update_endpoint works e rows =
    if works && any (live e.id) rows && any (λ r. not (str_eq e.id r.id) && same_key e r) rows
    then fails conflict
    else update_live works e.id (updated e) rows

-- `DeleteEndpoint`
unfoldable pub delete_endpoint : Bool → ℕ → String → List Endpoint → Answer (List Endpoint)
unfolding update_live
delete_endpoint works now id rows =
    update_live works id (λ e. record e { deleted_at = some now; updated_at = now }) rows

unfoldable pub set_pool : Bool → ℕ → String → String → List Endpoint → Answer (List Endpoint)
unfolding update_live
set_pool works now id pool rows =
    update_live works id (λ e. record e { pool = pool; updated_at = now }) rows

unfoldable pub set_disabled : Bool → ℕ → String → Option ℕ → List Endpoint → Answer (List Endpoint)
unfolding update_live
set_disabled works now id at rows =
    update_live works id (λ e. record e { disabled_at = at; updated_at = now }) rows

unfoldable pub set_first_failure :
    Bool → ℕ → String → Option ℕ → List Endpoint → Answer (List Endpoint)
unfolding update_live
set_first_failure works now id at rows =
    update_live works id (λ e. record e { first_failure_at = at; updated_at = now }) rows

unfoldable pub rotate_secret :
    Bool → ℕ → String → SealedSecret → List SealedSecret → List Endpoint → Answer (List Endpoint)
unfolding update_live
rotate_secret works now id secret old rows =
    update_live works id
      (λ e. record e {
        secret = record { sealed = secret.sealed; expires_at = none };
        old_secrets = old;
        updated_at = now;
      })
      rows

-- `GetEndpoint`: the first row in the order of the ids, of which a filter by key admits one.
unfoldable pub get_endpoint : Bool → (Endpoint → Bool) → List Endpoint → Answer Endpoint
get_endpoint works p [] = if works then fails not_found else fails failed
get_endpoint works p (e ∷ rows) =
    let rest = get_endpoint works p rows in
    if not works then fails failed else if p e then answers e else rest

abbrev pub by_id : String → String → Endpoint → Bool
by_id app_id id e = str_eq e.app_id app_id && live id e

abbrev pub by_uid : String → String → Endpoint → Bool
by_uid app_id uid e =
    str_eq e.app_id app_id && same_uid e.uid (some uid) && not (is_set e.deleted_at)

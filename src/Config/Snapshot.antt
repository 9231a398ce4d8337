-- ===== src/Config/Snapshot.antt =====
-- internal/application/config/snapshot.go: the in-memory configuration of a worker.
-- The sealer that opens a signing secret and the JSON parser of the custom headers are parameters:
-- they answer none where the call fails. `appsByUID` holds pointers to the entries of `apps`, which
-- the build goes on to extend: here it holds their ids, which are the primary key of the table.
pub mod Matching
pub mod Wanted
mod Examples
use Prim.Native.String
use huxio.Prelude.{
  ℕ, Bool, true, false, ◌&&◌, Option, none, some, List, [], ◌∷◌, ◌++◌, String, str_eq,
  if◌then◌else◌, keep, ◌⊎◌, inl, inr, or_else,
}
use huxio.Prelude.Dict.{Dict, get, put}
use huxio.Domain.Endpoint.{
  SecretType, SealedSecret, Organization, EventType, deliverable, wants_channels, active_secrets,
  is_empty, Endpoint as EndpointRow, Application as ApplicationRow,
}

pub record Secret : Type 0 where
  pub key : List ℕ
  pub secret_type : SecretType
  pub expires_at : Option ℕ

-- The stored row, embedded, and what is decrypted and parsed once.
pub record Endpoint : Type 0 where
  pub row : EndpointRow
  pub secrets : List Secret
  pub custom_headers : Dict String

pub record Application : Type 0 where
  pub app : ApplicationRow
  pub endpoints : List Endpoint
  pub by_event_type : Dict (List Endpoint)
  pub all_event_types : List Endpoint

pub record Snapshot : Type 0 where
  pub built_at : ℕ
  pub orgs : Dict Organization
  pub apps : Dict Application
  pub apps_by_uid : Dict String
  pub endpoints : Dict Endpoint
  pub event_types : Dict EventType

-- `repositories.SnapshotData`
pub record SnapshotData : Type 0 where
  pub organizations : List Organization
  pub applications : List ApplicationRow
  pub endpoints : List EndpointRow
  pub event_types : List EventType

-- The two errors of `buildEndpoint`, each about one endpoint.
pub data Problem : Type 0 where
  open_secret parse_headers : String → Problem

-- `appUIDKey` and `eventTypeKey`
unfoldable pub scoped_key : String → String → String
scoped_key org_id name = String.◌++◌ org_id (String.◌++◌ "\0" name)

put_orgs : List Organization → Dict Organization → Dict Organization
put_orgs [] m = m
put_orgs (o ∷ os) m = put_orgs os (put m o.id o)

put_event_types : List EventType → Dict EventType → Dict EventType
unfolding scoped_key
put_event_types [] m = m
put_event_types (t ∷ ts) m = put_event_types ts (put m (scoped_key t.org_id t.name) t)

unfoldable pub new_application : ApplicationRow → Application
new_application app = record { app = app; endpoints = []; by_event_type = []; all_event_types = [] }

put_apps : List ApplicationRow → Dict Application → Dict Application
unfolding new_application
put_apps [] m = m
put_apps (a ∷ rest) m = put_apps rest (put m a.id (new_application a))

-- An application without a uid, or with an empty one, is not in the map.
put_uids : List ApplicationRow → Dict String → Dict String
unfolding scoped_key
put_uids [] m = m
put_uids (a ∷ rest) m =
    let uid = or_else a.uid "" in
    put_uids rest (if str_eq uid "" then m else put m (scoped_key a.org_id uid) a.id)

-- The loop over an endpoint's event types.
subscribe : Endpoint → List String → Dict (List Endpoint) → Dict (List Endpoint)
subscribe e [] m = m
subscribe e (name ∷ names) m = subscribe e names (put m name (or_else (get m name) [] ++ e ∷ []))

unfoldable pub route : Endpoint → Application → Application
unfolding subscribe
route e a =
    let a' = record a { endpoints = a.endpoints ++ e ∷ [] } in
    if is_empty e.row.event_types
    then record a' { all_event_types = a.all_event_types ++ e ∷ [] }
    else record a' { by_event_type = subscribe e e.row.event_types a.by_event_type }

-- The endpoint joins the index of its application. One whose application was deleted is in none.
place : Endpoint → Option Application → Snapshot → Snapshot
unfolding route
place e none s = s
place e (some a) s = record s { apps = put s.apps e.row.app_id (route e a) }

unfoldable pub index_endpoint : Endpoint → Snapshot → Snapshot
unfolding place
index_endpoint e s =
    place e (get s.apps e.row.app_id) (record s { endpoints = put s.endpoints e.row.id e })

unfoldable pub initial : ℕ → SnapshotData → Snapshot
unfolding put_orgs put_event_types put_apps put_uids
initial now data_set = record {
  built_at = now;
  orgs = put_orgs data_set.organizations [];
  apps = put_apps data_set.applications [];
  apps_by_uid = put_uids data_set.applications [];
  endpoints = [];
  event_types = put_event_types data_set.event_types [];
}

module _ (open_sealed : String → Option (List ℕ)) (parse : String → Option (Dict String)) where
  unfoldable pub open_secrets : SecretType → List SealedSecret → Option (List Secret)
  open_secrets ty [] = some []
  open_secrets ty (s ∷ ss) = elim (open_sealed s.sealed) [
    | none ↦ none
    | some key ↦ elim (open_secrets ty ss) [
      | none ↦ none
      | some rest ↦ some (record { key = key; secret_type = ty; expires_at = s.expires_at } ∷ rest)
    ]
  ]

  -- `if len(ep.Headers) > 0`
  unfoldable pub headers_of : String → Option (Dict String)
  headers_of raw = if str_eq raw "" then some [] else parse raw

  unfoldable pub build_endpoint : ℕ → EndpointRow → Problem ⊎ Endpoint
  unfolding open_secrets headers_of
  build_endpoint now row = elim (open_secrets row.secret_type (active_secrets row now)) [
    | none ↦ inl (open_secret row.id)
    | some secrets ↦ elim (headers_of row.headers) [
      | none ↦ inl (parse_headers row.id)
      | some headers ↦ inr (record { row = row; secrets = secrets; custom_headers = headers })
    ]
  ]

  unfoldable pub add_endpoints :
      ℕ → List EndpointRow → Snapshot × List Problem → Snapshot × List Problem
  unfolding build_endpoint
  add_endpoints now [] acc = acc
  add_endpoints now (row ∷ rows) (s, problems) = elim (build_endpoint now row) [
    | inl problem ↦ add_endpoints now rows (s, problems ++ problem ∷ [])
    | inr e ↦ add_endpoints now rows (index_endpoint e s, problems)
  ]

  unfoldable pub build_snapshot : ℕ → SnapshotData → Snapshot × List Problem
  unfolding add_endpoints
  build_snapshot now data_set = add_endpoints now data_set.endpoints (initial now data_set, [])

-- `AppByUID`
unfoldable pub app_by_uid : Snapshot → String → String → Option Application
unfolding scoped_key
app_by_uid s org_id uid = elim (get s.apps_by_uid (scoped_key org_id uid)) [
  | none ↦ none
  | some id ↦ get s.apps id
]

unfoldable pub resolve_app : Snapshot → String → String → Option Application
unfolding app_by_uid
resolve_app s org_id id_or_uid = elim (get s.apps id_or_uid) [
  | none ↦ app_by_uid s org_id id_or_uid
  | some a ↦ if str_eq a.app.org_id org_id then some a else app_by_uid s org_id id_or_uid
]

unfoldable pub find_event_type : Snapshot → String → String → Option EventType
unfolding scoped_key
find_event_type s org_id name = get s.event_types (scoped_key org_id name)

unfoldable pub deliverable_to : List String → Endpoint → Bool
deliverable_to channels e = deliverable e.row && wants_channels e.row channels

-- The two loops over the indexes of an application, if there is one.
matching_in : String → List String → Option Application → List Endpoint
unfolding deliverable_to
matching_in event_type channels none = []
matching_in event_type channels (some a) =
    keep (deliverable_to channels) (or_else (get a.by_event_type event_type) [])
    ++ keep (deliverable_to channels) a.all_event_types

unfoldable pub matching_endpoints : Snapshot → String → String → List String → List Endpoint
unfolding matching_in
matching_endpoints s app_id event_type channels =
    matching_in event_type channels (get s.apps app_id)

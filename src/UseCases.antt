-- ===== src/UseCases.antt =====
-- internal/application/usecases: what the API does. Here `appResolver` and the tables it reads;
-- the use cases are the children.
pub mod Admin
pub mod Ingest
pub mod Applications
pub mod Endpoints
pub mod EventTypes
pub mod Messages
pub mod Operational
pub mod Portal
pub mod Replay
use huxio.Prelude.{
  ℕ, Bool, true, false, not, ◌&&◌, Option, none, some, List, [], ◌∷◌, String, str_eq, if◌then◌else◌,
}
use huxio.Domain.Endpoint.{Application}
use huxio.Domain.Errors.{Result, ok, err, new_not_found_error, new_internal_error}
use huxio.Store.Messages.{Answer, answers, fails, not_found, failed, same_uid}
use huxio.Store.Applications.{get_application, has_id, has_uid}
use huxio.Config.Snapshot.{Snapshot, resolve_app}

pub record AppRef : Type 0 where
  pub id : String
  pub org_id : String

-- What the resolver reads: the snapshot, and the application table if it has a repository, whose
-- two calls may fail.
pub record Resolver : Type 0 where
  pub snapshot : Option Snapshot
  pub app_repo : Option (List Application)
  pub by_id_works : Bool
  pub by_uid_works : Bool

-- The look-up by uid, after ErrNotFound only.
by_uid : Resolver → String → String → List Application → Answer Application → Answer Application
unfolding get_application
by_uid r org_id key rows (fails not_found) =
    get_application r.by_uid_works (has_uid org_id key) rows
by_uid r org_id key rows other = other

-- The `switch` on the error. The flag says that the snapshot is asked to reload.
resolved : Answer Application → Result AppRef × Bool
resolved (answers a) = (ok (record { id = a.id; org_id = a.org_id }), true)
resolved (fails not_found) = (err (new_not_found_error "application"), false)
resolved (fails _) = (err new_internal_error, false)

from_repo : Resolver → String → String → Option (List Application) → Result AppRef × Bool
unfolding by_uid resolved
from_repo r org_id key none = (err (new_not_found_error "application"), false)
from_repo r org_id key (some rows) =
    resolved (by_uid r org_id key rows (get_application r.by_id_works (has_id org_id key) rows))

-- `appResolver.resolve`, and whether it invalidates the snapshot.
unfoldable pub resolve : Resolver → String → String → Result AppRef × Bool
unfolding from_repo
resolve r org_id key = elim r.snapshot [
  | none ↦ elim r.app_repo [
    | none ↦ (err new_internal_error, false)
    | some rows ↦ from_repo r org_id key (some rows)
  ]
  | some s ↦ elim (resolve_app s org_id key) [
    | some a ↦ (ok (record { id = a.app.id; org_id = a.app.org_id }), false)
    | none ↦ from_repo r org_id key r.app_repo
  ]
]

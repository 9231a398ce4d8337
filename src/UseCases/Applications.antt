-- ===== src/UseCases/Applications.antt =====
-- internal/application/usecases/application_usecase.go: the applications of an organization. The
-- library's test of JSON is a parameter.
pub mod Resolved
use huxio.Prelude.{
  ℕ, Bool, true, false, not, ◌&&◌, Option, none, some, List, [], ◌∷◌, ◌++◌, String, str_eq,
  if◌then◌else◌, ℤ, pos, ltb_ℤ, or_else,
}
use huxio.Utils.{is_blank, nil_if_blank}
use huxio.Domain.Endpoint.{Application}
use huxio.Domain.Errors.{
  Result, ok, err, AppError, ◌>>=◌, ◌>>◌, fail_if, new_not_found_error, new_conflict_error,
  new_validation_error, new_internal_error,
}
use huxio.Store.Messages.{Answer, answers, fails, RepoError, not_found, conflict, failed}
use huxio.Store.Applications
use huxio.Store.Applications.{get_application, has_id, has_uid}

pub record ApplicationTables : Type 0 where
  pub rows : List Application
  pub announced : List String

-- The time of a call, the identifier it makes, and which of its calls work.
pub record ApplicationAnswers : Type 0 where
  pub now : ℕ
  pub new_id : String
  pub by_id_works : Bool
  pub by_uid_works : Bool
  pub write_works : Bool

pub record CreateApplicationInput : Type 0 where
  pub org_id : String
  pub name : String
  pub uid : Option String
  pub rate_limit : Option ℤ
  pub metadata : String

pub record UpdateApplicationInput : Type 0 where
  pub name : Option String
  pub uid : Option String
  pub rate_limit : Option ℤ
  pub metadata : String

abbrev pub not_positive : Option ℤ → Bool
not_positive none = false
not_positive (some n) = not (ltb_ℤ (pos 0) n)

abbrev pub is_malformed : (String → Bool) → String → Bool
is_malformed json_valid metadata = not (str_eq metadata "") && not (json_valid metadata)

-- The end of a call: its write, and the announcement that follows it if it worked.
unfoldable pub settle {ℓ} :
    {A : Type ℓ}
    → ApplicationTables
    → String
    → (RepoError → AppError)
    → A
    → Answer (List Application)
    → ApplicationTables × Result A
settle s org_id report a (answers rows) =
    (record { rows = rows; announced = s.announced ++ org_id ∷ [] }, ok a)
settle s org_id report a (fails e) = (s, err (report e))

abbrev pub taken_uid : AppError
taken_uid = new_conflict_error "an application with this uid already exists"

abbrev pub create_error : RepoError → AppError
create_error conflict = taken_uid
create_error _ = new_internal_error

abbrev pub delete_error : RepoError → AppError
delete_error not_found = new_not_found_error "application"
delete_error _ = new_internal_error

abbrev pub update_error : RepoError → AppError
update_error conflict = taken_uid
update_error e = delete_error e

unfoldable pub check_new : (String → Bool) → CreateApplicationInput → Result (Unit {0})
check_new json_valid i = do
  fail_if (is_blank i.name) (new_validation_error "name is required")
  fail_if (not_positive i.rate_limit) (new_validation_error "rateLimit must be positive")
  fail_if (is_malformed json_valid i.metadata)
      (new_validation_error "metadata must be well-formed JSON")

abbrev pub new_application : ApplicationAnswers → CreateApplicationInput → Application
new_application a i = record {
  id = a.new_id;
  org_id = i.org_id;
  uid = nil_if_blank (or_else i.uid "");
  name = i.name;
  rate_limit = i.rate_limit;
  metadata = i.metadata;
  created_at = a.now;
  updated_at = a.now;
  deleted_at = none;
}

-- `CreateApplication`
unfoldable pub create_application :
    (String → Bool)
    → ApplicationAnswers
    → CreateApplicationInput
    → ApplicationTables
    → ApplicationTables × Result Application
unfolding check_new
create_application json_valid a i s = elim (check_new json_valid i) [
  | err e ↦ (s, err e)
  | ok _ ↦
      settle s i.org_id create_error (new_application a i)
        (Applications.create_application a.write_works (new_application a i) s.rows)
]

-- The second look-up of `GetApplication`, after ErrNotFound only.
second_look_up :
    ApplicationAnswers
    → String
    → String
    → List Application
    → Answer Application
    → Result Application
second_look_up a org_id key rows (answers app) = ok app
second_look_up a org_id key rows (fails not_found) =
    elim (get_application a.by_uid_works (has_uid org_id key) rows) [
      | answers app ↦ ok app
      | fails e ↦ err (delete_error e)
    ]
second_look_up a org_id key rows (fails _) = err new_internal_error

-- `GetApplication`: by id, then by uid.
unfoldable pub look_up :
    ApplicationAnswers → String → String → List Application → Result Application
unfolding second_look_up
look_up a org_id key rows =
    second_look_up a org_id key rows (get_application a.by_id_works (has_id org_id key) rows)

-- What an update leaves blank.
abbrev pub blank_name : Option String → Bool
blank_name none = false
blank_name (some name) = is_blank name

-- The checks of `UpdateApplication`, and the fields that it sets.
unfoldable pub apply_update :
    (String → Bool) → ApplicationAnswers → UpdateApplicationInput → Application → Result Application
apply_update json_valid a i app = do
  fail_if (blank_name i.name) (new_validation_error "name cannot be blank")
  fail_if (not_positive i.rate_limit) (new_validation_error "rateLimit must be positive")
  fail_if (is_malformed json_valid i.metadata)
      (new_validation_error "metadata must be well-formed JSON")
  ok (record app {
    name = or_else i.name app.name;
    uid = elim i.uid [ none ↦ app.uid | some uid ↦ nil_if_blank uid ];
    rate_limit = elim i.rate_limit [ none ↦ app.rate_limit | some n ↦ some n ];
    metadata = if str_eq i.metadata "" then app.metadata else i.metadata;
    updated_at = a.now;
  })

unfoldable pub prepare_update :
    (String → Bool)
    → ApplicationAnswers
    → String
    → String
    → UpdateApplicationInput
    → List Application
    → Result Application
unfolding look_up apply_update
prepare_update json_valid a org_id key i rows = do
  app ← look_up a org_id key rows
  apply_update json_valid a i app

-- `UpdateApplication`
unfoldable pub update_application :
    (String → Bool)
    → ApplicationAnswers
    → String
    → String
    → UpdateApplicationInput
    → ApplicationTables
    → ApplicationTables × Result Application
update_application json_valid a org_id key i s =
    elim (prepare_update json_valid a org_id key i s.rows) [
      | err e ↦ (s, err e)
      | ok app ↦
          settle s org_id update_error app
            (Applications.update_application a.write_works app s.rows)
    ]

-- `DeleteApplication`
unfoldable pub delete_application :
    ApplicationAnswers → String → String → ApplicationTables → ApplicationTables × Result (Unit {0})
delete_application a org_id key s = elim (look_up a org_id key s.rows) [
  | err e ↦ (s, err e)
  | ok app ↦
      settle s org_id delete_error tt
        (Applications.delete_application a.write_works a.now app.id s.rows)
]

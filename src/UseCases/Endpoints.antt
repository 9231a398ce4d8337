-- ===== src/UseCases/Endpoints.antt =====
-- internal/application/usecases/endpoint_usecase.go: the life of an endpoint. Each call returns the
-- tables, with the organizations whose configuration was announced as changed, and its result.
pub mod Headers
pub mod Update
pub mod Keys
pub mod Rotation
pub mod Owned
pub mod Announced
mod Examples
use Prim.Native.String
use Prim.Native.Char
use huxio.Prelude.{
  ℕ, ◌+◌, ◌*◌, Bool, true, false, not, ◌&&◌, ◌||◌, Option, none, some, List, [], ◌∷◌, ◌++◌, String,
  str_eq, if◌then◌else◌, ℤ, pos, ltb_ℤ, or_else,
}
use huxio.Utils.{is_blank, fallback, nil_if_blank, unique_texts}
use huxio.Domain.Endpoint.{Endpoint, SealedSecret, SecretType, hmac256, valid, unexpired}
use huxio.Domain.Errors.{
  Result, ok, err, AppError, ◌>>=◌, ◌>>◌, fail_if, new_not_found_error, new_conflict_error,
  new_validation_error, new_internal_error,
}
use huxio.Store.Messages.{Answer, answers, fails, RepoError, not_found, conflict, failed}
use huxio.Store.Endpoints
use huxio.Store.Endpoints.{get_endpoint, by_id, by_uid}
use huxio.Dispatch.Breaker.{second}

pub record EndpointTables : Type 0 where
  pub rows : List Endpoint
  pub announced : List String

-- What the calls of one request answer.
pub record EndpointAnswers : Type 0 where
  pub now : ℕ
  pub by_id_works : Bool
  pub by_uid_works : Bool
  pub write_works : Bool
  pub disable_works : Bool
  pub clear_works : Bool
  -- 24 random bytes, in base64
  pub random : Option String
  pub new_id : String

-- The sealer and the standard library's URL parser, which gives the scheme and the host.
pub record Tools : Type 0 where
  pub seal : String → Option String
  pub open_sealed : String → Option String
  pub parse_url : String → Option (String × String)

-- The two look-ups of `GetEndpoint`.
second_look_up :
    EndpointAnswers → String → String → List Endpoint → Answer Endpoint → Result Endpoint
second_look_up a app_id key rows (answers e) = ok e
second_look_up a app_id key rows (fails not_found) =
    elim (get_endpoint a.by_uid_works (by_uid app_id key) rows) [
      | answers e ↦ ok e
      | fails not_found ↦ err (new_not_found_error "endpoint")
      | fails _ ↦ err new_internal_error
    ]
second_look_up a app_id key rows (fails _) = err new_internal_error

-- `EndpointUseCase.GetEndpoint`: by id, then by uid, within the application.
unfoldable pub look_up : EndpointAnswers → String → String → List Endpoint → Result Endpoint
unfolding second_look_up
look_up a app_id key rows =
    second_look_up a app_id key rows (get_endpoint a.by_id_works (by_id app_id key) rows)

-- ErrNotFound is reported as such; a conflict only where the caller says so.
abbrev pub write_error : RepoError → AppError
write_error not_found = new_not_found_error "endpoint"
write_error _ = new_internal_error

abbrev pub uid_error : RepoError → AppError
uid_error conflict = new_conflict_error "an endpoint with this uid already exists"
uid_error e = write_error e

-- A write at the end of a call, and the announcement that follows it if it worked.
unfoldable pub finish {ℓ} :
    {A : Type ℓ}
    → EndpointTables
    → String
    → (RepoError → AppError)
    → A
    → Answer (List Endpoint)
    → EndpointTables × Result A
finish s org_id report a (answers rows) =
    (record { rows = rows; announced = s.announced ++ org_id ∷ [] }, ok a)
finish s org_id report a (fails e) = (s, err (report e))

-- `strings.HasPrefix`
unfoldable pub has_prefix : String → String → Bool
has_prefix s String.[] = true
has_prefix String.[] (String.◌∷◌ d p) = false
has_prefix (String.◌∷◌ c s) (String.◌∷◌ d p) =
    str_eq (String.◌∷◌ c "") (String.◌∷◌ d "") && has_prefix s p

abbrev pub secret_prefix : String
secret_prefix = "whsec_"

-- `GenerateSecret`
unfoldable pub generate_secret : Option String → Option String
generate_secret none = none
generate_secret (some random) = some (String.◌++◌ secret_prefix random)

-- The secret of a creation or rotation: the caller's, or a new one if that is blank.
unfoldable pub choose_secret : Option String → String → Result String
unfolding generate_secret has_prefix
choose_secret random given =
    if is_blank given
    then elim (generate_secret random) [ none ↦ err new_internal_error | some s ↦ ok s ]
    else if has_prefix given secret_prefix
    then ok given
    else err (new_validation_error "secret must start with whsec_")

unfoldable pub seal_secret : Tools → String → Result String
seal_secret tools secret = elim (tools.seal secret) [
  | none ↦ err new_internal_error
  | some sealed ↦ ok sealed
]

-- `validateEndpointURL`
unfoldable pub validate_endpoint_url : Tools → String → Result (Unit {0})
validate_endpoint_url tools raw =
    if is_blank raw
    then err (new_validation_error "url is required")
    else elim (tools.parse_url raw) [
      | none ↦ err (new_validation_error "url is not a valid URL")
      | some (scheme, host) ↦ do
        fail_if (not (str_eq scheme "http" || str_eq scheme "https"))
            (new_validation_error "url must use http or https")
        fail_if (str_eq host "") (new_validation_error "url must include a host")
    ]

abbrev pub secret_rotation_overlap : ℕ
secret_rotation_overlap = 86_400 * second

-- What a rotation keeps of the old secrets: the current one until the overlap ends, and the others
-- that have not expired.
unfoldable pub retired_secrets : ℕ → Endpoint → List SealedSecret
retired_secrets now e =
    record { sealed = e.secret.sealed; expires_at = some (now + secret_rotation_overlap) }
    ∷ unexpired now e.old_secrets

-- `RotateSecret`
unfoldable pub rotate_secret :
    Tools
    → EndpointAnswers
    → String
    → String
    → String
    → EndpointTables
    → EndpointTables × Result String
rotate_secret tools a app_id key given s = elim (look_up a app_id key s.rows) [
  | err e ↦ (s, err e)
  | ok ep ↦ elim (choose_secret a.random given) [
    | err e ↦ (s, err e)
    | ok secret ↦ elim (seal_secret tools secret) [
      | err e ↦ (s, err e)
      | ok sealed ↦ finish s ep.org_id write_error secret (
          Endpoints.rotate_secret a.write_works a.now ep.id
            (record { sealed = sealed; expires_at = none }) (retired_secrets a.now ep) s.rows)
    ]
  ]
]

-- `RevealSecret`
unfoldable pub reveal_secret :
    Tools → EndpointAnswers → String → String → EndpointTables → Result String
reveal_secret tools a app_id key s = do
  ep ← look_up a app_id key s.rows
  elim (tools.open_sealed ep.secret.sealed) [ none ↦ err new_internal_error | some text ↦ ok text ]

-- `DeleteEndpoint`
unfoldable pub delete_endpoint :
    EndpointAnswers → String → String → EndpointTables → EndpointTables × Result (Unit {0})
delete_endpoint a app_id key s = elim (look_up a app_id key s.rows) [
  | err e ↦ (s, err e)
  | ok ep ↦
      finish s ep.org_id write_error tt (Endpoints.delete_endpoint a.write_works a.now ep.id s.rows)
]

-- `SetPool`, by id; it announces nothing.
unfoldable pub set_pool :
    EndpointAnswers → String → String → EndpointTables → EndpointTables × Result (Unit {0})
set_pool a id pool s =
    if is_blank pool
    then (s, err (new_validation_error "pool is required"))
    else elim (Endpoints.set_pool a.write_works a.now id pool s.rows) [
      | answers rows ↦ (record s { rows = rows }, ok tt)
      | fails e ↦ (s, err (write_error e))
    ]

-- ===== src/Domain/Errors.antt =====
-- internal/domain/apperrors/errors.go, and internal/adapters/inbound/http/httperr/status.go, which
-- turns a kind into a status. The cause, which only the log reads, is left out.
use Prim.Native.String
use huxio.Prelude.{ℕ, String, Bool, if◌then◌else◌}

pub data ErrorKind : Type 0 where
  not_found conflict validation business unauthorized forbidden : ErrorKind
  rate_limit payload_too_large gone internal : ErrorKind

pub record AppError : Type 0 where
  pub kind : ErrorKind
  pub code : String
  pub message : String

-- The result of a Go function that returns a value and an error.
pub data Result {ℓ} (A : Type ℓ) : Type ℓ where
  err : AppError → Result A
  ok : A → Result A

-- `if err != nil { return err }`, after a call that has a value, and after one that has none.
infixl 5 ◌>>◌ ◌>>=◌
abbrev pub ◌>>=◌ {ℓ κ} : {V : Type ℓ} {W : Type κ} → Result V → (V → Result W) → Result W
err e >>= next = err e
ok v >>= next = next v

abbrev pub ◌>>◌ {ℓ} : {W : Type ℓ} → Result (Unit {0}) → Result W → Result W
err e >> rest = err e
ok _ >> rest = rest

-- `if b { return e }`
abbrev pub fail_if : Bool → AppError → Result (Unit {0})
fail_if broken e = if broken then err e else ok tt

abbrev pub new_not_found_error : String → AppError
new_not_found_error resource = record {
  kind = not_found;
  code = "not_found";
  message = String.◌++◌ resource " not found";
}

abbrev pub new_conflict_error : String → AppError
new_conflict_error message = record { kind = conflict; code = "conflict"; message = message }

abbrev pub new_validation_error : String → AppError
new_validation_error message = record { kind = validation; code = "validation"; message = message }

abbrev pub new_payload_too_large_error : String → AppError
new_payload_too_large_error message = record {
  kind = payload_too_large;
  code = "payload_too_large";
  message = message;
}

abbrev pub new_rate_limit_error : String → AppError
new_rate_limit_error message = record {
  kind = rate_limit;
  code = "rate_limited";
  message = message;
}

abbrev pub new_internal_error : AppError
new_internal_error = record {
  kind = internal;
  code = "internal_error";
  message = "internal server error";
}

-- `StatusForKind`
unfoldable pub status_for_kind : ErrorKind → ℕ
status_for_kind not_found = 404
status_for_kind conflict = 409
status_for_kind validation = 422
status_for_kind business = 422
status_for_kind unauthorized = 401
status_for_kind forbidden = 403
status_for_kind rate_limit = 429
status_for_kind payload_too_large = 413
status_for_kind gone = 410
status_for_kind internal = 500

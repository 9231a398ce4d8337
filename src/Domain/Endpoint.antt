-- ===== src/Domain/Endpoint.antt =====
-- internal/domain/entities/endpoint.go, application.go and organization.go.
-- A time is a number of nanoseconds; raw JSON is kept as its text.
use huxio.Prelude.{
  ℕ, Bool, true, false, not, ◌&&◌, Option, none, some, List, [], ◌∷◌, String, ltb, if◌then◌else◌,
  is_set, text_mem, any, ℤ,
}

pub data SecretType : Type 0 where
  hmac256 ed25519 : SecretType
  unset : SecretType
  other : String → SecretType

-- `SecretType.Valid`
unfoldable pub valid : SecretType → Bool
valid hmac256 = true
valid ed25519 = true
valid _ = false

pub record SealedSecret : Type 0 where
  pub sealed : String
  pub expires_at : Option ℕ

-- `SealedSecret.Expired`: now is after the expiry.
unfoldable pub expired : SealedSecret → ℕ → Bool
expired s now = elim s.expires_at [ none ↦ false | some at ↦ ltb at now ]

pub record Endpoint : Type 0 where
  pub id : String
  pub app_id : String
  pub org_id : String
  pub uid : Option String
  pub url : String
  pub description : String
  pub version : ℤ
  pub rate_limit : Option ℤ
  pub event_types : List String
  pub channels : List String
  pub headers : String
  pub secret : SealedSecret
  pub secret_type : SecretType
  pub old_secrets : List SealedSecret
  pub pool : String
  pub first_failure_at : Option ℕ
  pub disabled_at : Option ℕ
  pub created_at : ℕ
  pub updated_at : ℕ
  pub deleted_at : Option ℕ

unfoldable pub disabled : Endpoint → Bool
disabled e = is_set e.disabled_at

unfoldable pub deleted : Endpoint → Bool
deleted e = is_set e.deleted_at

unfoldable pub deliverable : Endpoint → Bool
unfolding disabled deleted
deliverable e = not (disabled e) && not (deleted e)

abbrev pub is_empty {ℓ} : {A : Type ℓ} → List A → Bool
is_empty [] = true
is_empty (x ∷ xs) = false

unfoldable pub wants_event_type : Endpoint → String → Bool
wants_event_type e name = if is_empty e.event_types then true else text_mem name e.event_types

-- The set `want` of the source holds the endpoint's channels.
unfoldable pub wants_channels : Endpoint → List String → Bool
wants_channels e channels =
    if is_empty e.channels
    then true
    else if is_empty channels
    then false
    else any (λ c. text_mem c e.channels) channels

-- The loop of `ActiveSecrets` over the rotated-out secrets.
unfoldable pub unexpired : ℕ → List SealedSecret → List SealedSecret
unfolding expired
unexpired now [] = []
unexpired now (s ∷ ss) = let rest = unexpired now ss in if expired s now then rest else s ∷ rest

unfoldable pub active_secrets : Endpoint → ℕ → List SealedSecret
unfolding unexpired
active_secrets e now = e.secret ∷ unexpired now e.old_secrets

pub record Application : Type 0 where
  pub id : String
  pub org_id : String
  pub uid : Option String
  pub name : String
  pub rate_limit : Option ℤ
  pub metadata : String
  pub created_at : ℕ
  pub updated_at : ℕ
  pub deleted_at : Option ℕ

pub record Organization : Type 0 where
  pub id : String
  pub name : String

pub record EventType : Type 0 where
  pub org_id : String
  pub name : String
  pub description : String
  pub schemas : String
  pub created_at : ℕ
  pub updated_at : ℕ
  pub deleted_at : Option ℕ

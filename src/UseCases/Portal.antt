-- ===== src/UseCases/Portal.antt =====
-- internal/application/usecases/portal_usecase.go: tokens for the consumer portal. The issuer, an
-- interface, and `url.QueryEscape` are arguments.
use Prim.Native.String
use huxio.Prelude.{
  ◌≡◌, refl, ℕ, ◌*◌, Bool, true, false, not, ◌&&◌, ◌||◌, Option, none, some, String, str_eq,
  if◌then◌else◌, ℤ, pos, ltb_ℤ,
}
use huxio.Dispatch.Breaker.{second}
use huxio.Domain.Errors.{Result, ok, err, new_validation_error}
use huxio.UseCases.{AppRef, Resolver, resolve}

-- `TokenIssuer`, with the token's expiry.
abbrev pub TokenIssuer : Type 0
TokenIssuer = String → String → ℤ → Result (String × ℕ)

pub record PortalAccess : Type 0 where
  pub url : String
  pub token : String
  pub expiry : ℕ

abbrev pub hour : ℕ
hour = 3600 * second

pub record Portal : Type 0 where
  pub base_url : String
  pub ttl : ℤ

-- `strings.TrimRight` of slashes
unfoldable pub trim_slashes : String → String
trim_slashes String.[] = ""
trim_slashes (String.◌∷◌ c s) =
    let rest = trim_slashes s in
    if str_eq rest "" && str_eq (String.◌∷◌ c "") "/" then "" else String.◌∷◌ c rest

-- `NewPortalUseCase`
unfoldable pub new_portal : String → ℤ → Portal
unfolding trim_slashes
new_portal base_url ttl = record {
  base_url = trim_slashes base_url;
  ttl = if ltb_ℤ (pos 0) ttl then ttl else pos (8 * hour);
}

-- The test of `Grant`, negated.
abbrev pub allowed : ℤ → Bool
allowed ttl = not (not (ltb_ℤ (pos 0) ttl) || ltb_ℤ (pos (24 * hour)) ttl)

abbrev pub lifetime_of : Portal → Option ℤ → ℤ
lifetime_of p none = p.ttl
lifetime_of p (some ttl) = ttl

abbrev pub access : (String → String) → Portal → Result (String × ℕ) → Result PortalAccess
access escape p (err e) = err e
access escape p (ok (token, expiry)) = ok (record {
  url = String.◌++◌ p.base_url (String.◌++◌ "/portal?token=" (escape token));
  token = token;
  expiry = expiry;
})

-- `Grant`, once the application is known.
unfoldable pub grant_to :
    TokenIssuer → (String → String) → Portal → ℤ → Result AppRef → Result PortalAccess
grant_to issue escape p ttl (err e) = err e
grant_to issue escape p ttl (ok app) =
    if allowed ttl
    then access escape p (issue app.id app.org_id ttl)
    else err (new_validation_error "token lifetime must be between 1 second and 24 hours")

-- `Grant`
unfoldable pub grant :
    TokenIssuer
    → (String → String)
    → Portal
    → Resolver
    → String
    → String
    → Option ℤ
    → Result PortalAccess
unfolding grant_to
grant issue escape p r org_id key ttl =
    grant_to issue escape p (lifetime_of p ttl) (resolve r org_id key).0

abbrev pub is_error {ℓ} : {A : Type ℓ} → Result A → Bool
is_error (err e) = true
is_error (ok a) = false

-- A lifetime that is not allowed is refused with an error, whatever the issuer would answer.
pub grant-refused :
    (issue : TokenIssuer) (escape : String → String) (p : Portal) (r : Resolver)
    (org_id key : String) (ttl : Option ℤ)
    → allowed (lifetime_of p ttl) ≡ false
    → is_error (grant issue escape p r org_id key ttl) ≡ true
unfolding grant grant_to
grant-refused issue escape p r org_id key ttl long = resolved (resolve r org_id key).0
  where
    resolved : (x : Result AppRef) → is_error (grant_to issue escape p (lifetime_of p ttl) x) ≡ true
    resolved (err e) = refl
    resolved (ok app) = rw (long) refl

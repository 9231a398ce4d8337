-- ===== src/UseCases/Endpoints/Keys.antt =====
-- The keys that an endpoint's requests are signed with, from the texts of its secrets.
use mathlib.Core.Sum.{inr-injective}
use huxio.Prelude.{
  ℕ, ◌≡◌, refl, sym, ◌∙◌, ap, Option, none, some, List, [], ◌∷◌, map, String, ◌⊎◌, inl, inr,
}
use huxio.Prelude.Dict.{Dict}
use huxio.Domain.Endpoint.{SecretType, SealedSecret, active_secrets, Endpoint as EndpointRow}
use huxio.Config.Snapshot.{
  Secret, Endpoint, Problem, open_secret, parse_headers, open_secrets, headers_of, build_endpoint,
}

abbrev pub texts_of : List SealedSecret → List String
texts_of ss = map (λ s. s.sealed) ss

abbrev pub keys_of : List Secret → List (List ℕ)
keys_of ss = map (λ s. s.key) ss

module _ (open_sealed : String → Option (List ℕ)) (parse : String → Option (Dict String)) where
  -- The keys that the texts hold, if all of them can be opened.
  unfoldable pub open_all : List String → Option (List (List ℕ))
  open_all [] = some []
  open_all (t ∷ ts) = elim (open_sealed t) [
    | none ↦ none
    | some key ↦ elim (open_all ts) [ none ↦ none | some keys ↦ some (key ∷ keys) ]
  ]

  abbrev pub keys_opened : Option (List Secret) → Option (List (List ℕ))
  keys_opened none = none
  keys_opened (some ss) = some (keys_of ss)

  open_secrets-keys :
      (ty : SecretType) (ss : List SealedSecret)
      → keys_opened (open_secrets open_sealed parse ty ss) ≡ open_all (texts_of ss)
  unfolding open_secrets open_all
  open_secrets-keys ty [] = refl
  open_secrets-keys ty (s ∷ ss) =
      cases (open_sealed s.sealed) (open_secrets open_sealed parse ty ss) (open_all (texts_of ss))
        (open_secrets-keys ty ss)
    where
      cases :
          (k : Option (List ℕ)) (r : Option (List Secret)) (o : Option (List (List ℕ)))
          → keys_opened r ≡ o
          → keys_opened (elim k [
            | none ↦ none
            | some key ↦ elim r [
              | none ↦ none
              | some rest ↦
                  some (record { key = key; secret_type = ty; expires_at = s.expires_at } ∷ rest)
            ]
          ])
            ≡ elim k [
              | none ↦ none
              | some key ↦ elim o [ none ↦ none | some keys ↦ some (key ∷ keys) ]
            ]
      cases none r o h = refl
      cases (some key) none o h = rw⁻¹ h refl
      cases (some key) (some rest) o h = rw⁻¹ h refl

  -- A built endpoint has the keys of the secrets that are active at that time.
  pub build_endpoint-keys :
      (now : ℕ) (row : EndpointRow) (x : Endpoint)
      → build_endpoint open_sealed parse now row ≡ inr x
      → open_all (texts_of (active_secrets row now)) ≡ some (keys_of x.secrets)
  unfolding build_endpoint
  build_endpoint-keys now row x built =
      sym (open_secrets-keys row.secret_type (active_secrets row now))
      ∙ cases (open_secrets open_sealed parse row.secret_type (active_secrets row now))
          (headers_of open_sealed parse row.headers) built
    where
      cases :
          (r : Option (List Secret)) (h : Option (Dict String))
          → (elim r as (λ x. Problem ⊎ Endpoint) [
            | none ↦ inl (open_secret row.id)
            | some secrets ↦ elim h as (λ x. Problem ⊎ Endpoint) [
              | none ↦ inl (parse_headers row.id)
              | some headers ↦
                  inr (record { row = row; secrets = secrets; custom_headers = headers })
            ]
          ])
            ≡ inr x
          → keys_opened r ≡ some (keys_of x.secrets)
      cases none h e = absurd (cc)
      cases (some secrets) none e = absurd (cc)
      cases (some secrets) (some headers) e =
          ap (λ y. some (keys_of y.secrets)) (inr-injective _ _ e)

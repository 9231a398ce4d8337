-- ===== src/UseCases/Endpoints/Rotation.antt =====
-- During the overlap of a rotation, receivers can go on checking with any secret that they had.
use huxio.Prelude.{
  ℕ, ◌+◌, ◌≤◌, ◌≡◌, refl, true, Option, none, some, List, [], ◌∷◌, String, ap, sym, ◌∙◌, arith,
  Bool-cases, inl, inr, if◌then◌else◌,
}
use huxio.Domain.Endpoint.{Endpoint, SealedSecret, expired, unexpired, active_secrets}
use huxio.Prelude.Dict.{Dict}
use huxio.Config.Snapshot.{build_endpoint, Endpoint as Built}
use huxio.UseCases.Endpoints.Keys.{texts_of, keys_of, open_all, build_endpoint-keys}
use huxio.Domain.Errors.{Result, ok, err, new_internal_error}
use huxio.Store.Messages.{Answer, answers, fails}
use huxio.Store.Endpoints
use huxio.UseCases.Endpoints.{
  EndpointTables, EndpointAnswers, Tools, look_up, choose_secret, seal_secret, finish, write_error,
  retired_secrets, secret_rotation_overlap, rotate_secret,
}

expired_later :
    (now later : ℕ) (s : SealedSecret) → now ≤ later → expired s now ≡ true → expired s later ≡ true
unfolding expired
expired_later now later s le h = ground arith

-- What has expired by now has expired later: filtering by both times is filtering by the later one.
unexpired_later :
    (now later : ℕ) (ss : List SealedSecret)
    → now ≤ later
    → unexpired later (unexpired now ss) ≡ unexpired later ss
unfolding unexpired
unexpired_later now later [] le = refl
unexpired_later now later (s ∷ ss) le = elim (Bool-cases (expired s now)) [
  | inl gone ↦ rw (gone, expired_later now later s le gone) (unexpired_later now later ss le)
  | inr lives ↦
      rw lives (ap (λ r. if expired s later then r else s ∷ r) (unexpired_later now later ss le))
]

-- The row after a rotation.
abbrev pub rotated : String → ℕ → List SealedSecret → Endpoint → Endpoint
rotated sealed now old e = record e {
  secret = record { sealed = sealed; expires_at = none };
  old_secrets = old;
  updated_at = now;
}

-- Until the overlap ends, the active secrets are the new one and those that were active before.
active_secrets-rotated :
    (sealed : String) (now later : ℕ) (ep : Endpoint)
    → now ≤ later
    → later ≤ now + secret_rotation_overlap
    → texts_of (active_secrets (rotated sealed now (retired_secrets now ep) ep) later)
      ≡ sealed ∷ texts_of (active_secrets ep later)
unfolding active_secrets retired_secrets
active_secrets-rotated sealed now later ep low high =
    ground (arith, unexpired_later now later ep.old_secrets low)

module _ (tools : Tools) (a : EndpointAnswers) (app_id key given : String) (s : EndpointTables)
    (later : ℕ) where
  -- What a rotation that worked did: the endpoint's row has the new secret and the retired ones, and
  -- where a snapshot is built from that row at the later time, the keys that it signs with are the new
  -- secret's and those of the secrets that would be active by then without the rotation.
  pub record HasRotated (secret : String) (s' : EndpointTables) : Type 0 where
    pub ep : Endpoint
    pub sealed : String
    pub found : look_up a app_id key s.rows ≡ ok ep
    pub seals : tools.seal secret ≡ some sealed
    pub rows :
        Endpoints.update_live a.write_works ep.id
          (rotated sealed a.now (retired_secrets a.now ep))
          s.rows
        ≡ answers s'.rows
    pub overlap :
        (open_sealed : String → Option (List ℕ)) (parse : String → Option (Dict String)) (x : Built)
        → build_endpoint open_sealed parse later
            (rotated sealed a.now (retired_secrets a.now ep) ep)
          ≡ inr x
        → open_all open_sealed parse (sealed ∷ texts_of (active_secrets ep later))
          ≡ some (keys_of x.secrets)

  abbrev pub IsRotation : EndpointTables × Result String → Type 0
  IsRotation (s', err e) = s' ≡ s
  IsRotation (s', ok secret) = HasRotated secret s'

  write : Endpoint → String → Answer (List Endpoint)
  write ep sealed =
      Endpoints.rotate_secret a.write_works a.now ep.id
        (record { sealed = sealed; expires_at = none }) (retired_secrets a.now ep) s.rows

  -- A rotation that fails changes nothing. After one that works, the endpoint's row has the new secret,
  -- and a snapshot that can be built from this row until 24 hours have passed signs the endpoint's
  -- requests with the new secret and with every one that would be active at the time of the building
  -- without the rotation.
  pub rotate_secret-IsRotation :
      a.now ≤ later
      → later ≤ a.now + secret_rotation_overlap
      → IsRotation (rotate_secret tools a app_id key given s)
  unfolding rotate_secret seal_secret finish Endpoints.rotate_secret write
  rotate_secret-IsRotation low high = looked (look_up a app_id key s.rows) refl
    where
      written :
          (ep : Endpoint) (text sealed : String)
          → look_up a app_id key s.rows ≡ ok ep
          → tools.seal text ≡ some sealed
          → (w : Answer (List Endpoint)) → write ep sealed ≡ w
          → IsRotation (finish s ep.org_id write_error text w)
      written ep text sealed found seals (fails e) wrote = refl
      written ep text sealed found seals (answers rows) wrote = record {
        ep = ep;
        sealed = sealed;
        found = found;
        seals = seals;
        rows = wrote;
        overlap = λ open_sealed parse x built.
            ap (open_all open_sealed parse)
              (sym (active_secrets-rotated sealed a.now later ep low high))
            ∙ build_endpoint-keys open_sealed parse later
                (rotated sealed a.now (retired_secrets a.now ep) ep) x built;
      }

      with_seal :
          (ep : Endpoint) (text : String)
          → look_up a app_id key s.rows ≡ ok ep
          → (o : Option String) → tools.seal text ≡ o
          → IsRotation
              (elim (elim o as (λ x. Result String) [
                | none ↦ err new_internal_error
                | some sealed ↦ ok sealed
              ]) [
                | err e ↦ (s, err e)
                | ok sealed ↦ finish s ep.org_id write_error text (write ep sealed)
              ])
      with_seal ep text found none seals = refl
      with_seal ep text found (some sealed) seals =
          written ep text sealed found seals (write ep sealed) refl

      chosen :
          (ep : Endpoint)
          → look_up a app_id key s.rows ≡ ok ep
          → (c : Result String)
          → IsRotation (elim c [
            | err e ↦ (s, err e)
            | ok text ↦ elim (seal_secret tools text) [
              | err e ↦ (s, err e)
              | ok sealed ↦ finish s ep.org_id write_error text (write ep sealed)
            ]
          ])
      chosen ep found (err e) = refl
      chosen ep found (ok text) = with_seal ep text found (tools.seal text) refl

      looked :
          (r : Result Endpoint)
          → look_up a app_id key s.rows ≡ r
          → IsRotation (elim r [
            | err e ↦ (s, err e)
            | ok ep ↦ elim (choose_secret a.random given) [
              | err e ↦ (s, err e)
              | ok text ↦ elim (seal_secret tools text) [
                | err e ↦ (s, err e)
                | ok sealed ↦ finish s ep.org_id write_error text (write ep sealed)
              ]
            ]
          ])
      looked (err e) found = refl
      looked (ok ep) found = chosen ep found (choose_secret a.random given)

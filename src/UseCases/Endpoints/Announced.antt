-- ===== src/UseCases/Endpoints/Announced.antt =====
-- Which calls tell the other nodes that an organization's configuration has changed.
use huxio.Prelude.{◌≡◌, refl, false, none, List, [], ◌∷◌, ◌++◌, String, arith}
use huxio.Domain.Endpoint.{Endpoint}
use huxio.Domain.Errors.{Result, ok, err, new_internal_error}
use huxio.Store.Messages.{Answer, answers, fails}
use huxio.Store.Endpoints
use huxio.UseCases.Endpoints.{EndpointTables, EndpointAnswers, Tools, look_up, uid_error}
use huxio.UseCases.Endpoints.Update.{
  UpdateEndpointInput, apply_update, switched, switch_disabled, switch_asked, announce,
  set_disabled, update_endpoint,
}

-- A call that works announces the endpoint's organization once; one that fails announces nothing.
abbrev pub IsAnnounced : EndpointTables → EndpointTables × Result Endpoint → Type 0
IsAnnounced s (s', ok ep) = s'.announced ≡ s.announced ++ ep.org_id ∷ []
IsAnnounced s (s', err e) = s'.announced ≡ s.announced

announce-IsAnnounced :
    (s : EndpointTables) (r : List Endpoint × Result Endpoint) → IsAnnounced s (announce s r)
unfolding announce
announce-IsAnnounced s (rows, ok ep) = refl
announce-IsAnnounced s (rows, err e) = refl

pub update_endpoint-IsAnnounced :
    (tools : Tools) (a : EndpointAnswers) (app_id key : String) (i : UpdateEndpointInput)
    (s : EndpointTables)
    → IsAnnounced s (update_endpoint tools a app_id key i s)
unfolding update_endpoint
update_endpoint-IsAnnounced tools a app_id key i s = looked (look_up a app_id key s.rows)
  where
    written :
        (ep : Endpoint) (w : Answer (List Endpoint))
        → IsAnnounced s (elim w [
          | fails e ↦ (s, err (uid_error e))
          | answers rows ↦ announce s (switch_asked a ep i.disabled rows)
        ])
    written ep (fails e) = refl
    written ep (answers rows) = announce-IsAnnounced s (switch_asked a ep i.disabled rows)

    applied :
        (r : Result Endpoint)
        → IsAnnounced s (elim r [
          | err e ↦ (s, err e)
          | ok ep' ↦ elim (Endpoints.update_endpoint a.write_works ep' s.rows) [
            | fails e ↦ (s, err (uid_error e))
            | answers rows ↦ announce s (switch_asked a ep' i.disabled rows)
          ]
        ])
    applied (err e) = refl
    applied (ok ep) = written ep (Endpoints.update_endpoint a.write_works ep s.rows)

    looked :
        (r : Result Endpoint)
        → IsAnnounced s (elim r [
          | err e ↦ (s, err e)
          | ok ep ↦ elim (apply_update tools a i ep) [
            | err e ↦ (s, err e)
            | ok ep' ↦ elim (Endpoints.update_endpoint a.write_works ep' s.rows) [
              | fails e ↦ (s, err (uid_error e))
              | answers rows ↦ announce s (switch_asked a ep' i.disabled rows)
            ]
          ]
        ])
    looked (err e) = refl
    looked (ok ep) = applied (apply_update tools a i ep)

-- If the endpoint is found and its first write works, switching it on whose second write fails leaves
-- it on in the table, and announces nothing.
pub set_disabled-unannounced :
    (a : EndpointAnswers) (app_id key : String) (s : EndpointTables) (ep : Endpoint)
    (rows : List Endpoint)
    → look_up a app_id key s.rows ≡ ok ep
    → Endpoints.set_disabled a.disable_works a.now ep.id none s.rows ≡ answers rows
    → a.clear_works ≡ false
    → set_disabled a app_id key false s
      ≡ (record { rows = rows; announced = s.announced }, err new_internal_error)
unfolding set_disabled switch_disabled switched announce Endpoints.set_first_failure
    Endpoints.update_live
set_disabled-unannounced a app_id key s ep rows found first broken =
    ground (arith, found, first, broken)

-- ===== src/UseCases/Admin.antt =====
-- internal/application/usecases/admin_usecase.go, without its reads: the operator's forced rescue,
-- and the calls that move an endpoint to another pool or switch it on again.
use huxio.Prelude.{
  ◌≡◌, refl, ℕ, Bool, length, keep, true, false, none, List, [], ◌∷◌, ◌++◌, String, if◌then◌else◌,
}
use huxio.Utils.{is_blank}
use huxio.Domain.Endpoint.{Endpoint}
use huxio.Domain.Errors.{
  Result, ok, err, new_validation_error, new_not_found_error, new_internal_error,
}
use huxio.Store.Queue
use huxio.Store.Queue.{Rows, lock_expired}
use huxio.Store.Messages.{Answer, answers, fails}
use huxio.Store.Endpoints
use huxio.UseCases.{AppRef, Resolver, resolve}
use huxio.UseCases.Endpoints.{EndpointTables, EndpointAnswers}

pub record PoolAssignment : Type 0 where
  pub org_id : String
  pub app_id_or_uid : String
  pub endpoint_id : String
  pub pool : String

-- `RescueStuck`, with the number of tasks that it gives back.
unfoldable pub rescue_stuck : Bool → ℕ → Rows → Rows × Result ℕ
rescue_stuck works now rows =
    if works
    then (Queue.rescue_stuck now rows, ok (length (keep (lock_expired now) rows)))
    else (rows, err new_internal_error)

-- The notification at the end, if there is an invalidator; its error is dropped.
unfoldable pub notify : Bool → String → EndpointTables → List Endpoint → EndpointTables
notify wired org_id s rows = record {
  rows = rows;
  announced = if wired then s.announced ++ org_id ∷ [] else s.announced;
}

-- The application, and then its endpoint, which every error makes not found.
unfoldable pub find_endpoint :
    Resolver → EndpointAnswers → PoolAssignment → List Endpoint → Result (AppRef × Endpoint)
find_endpoint r a i rows = elim (resolve r i.org_id i.app_id_or_uid).0 [
  | err e ↦ err e
  | ok app ↦
      elim (Endpoints.get_endpoint a.by_id_works (Endpoints.by_id app.id i.endpoint_id) rows) [
        | fails e ↦ err (new_not_found_error "endpoint")
        | answers ep ↦ ok (app, ep)
      ]
]

-- The end of `MoveEndpointPool`.
unfoldable pub move_found :
    Bool
    → EndpointAnswers
    → String
    → EndpointTables
    → Result (AppRef × Endpoint)
    → EndpointTables × Result (Unit {0})
unfolding notify
move_found wired a pool s (err e) = (s, err e)
move_found wired a pool s (ok (app, ep)) =
    elim (Endpoints.set_pool a.write_works a.now ep.id pool s.rows) [
      | fails e ↦ (s, err new_internal_error)
      | answers rows ↦ (notify wired app.org_id s rows, ok tt)
    ]

-- `MoveEndpointPool`
unfoldable pub move_endpoint_pool :
    Bool
    → Resolver
    → EndpointAnswers
    → PoolAssignment
    → EndpointTables
    → EndpointTables × Result (Unit {0})
unfolding find_endpoint move_found
move_endpoint_pool wired r a i s =
    if is_blank i.pool
    then (s, err (new_validation_error "pool is required"))
    else move_found wired a i.pool s (find_endpoint r a i s.rows)

-- The second write of `ReEnableEndpoint`; the first one stays if it fails.
unfoldable pub clear_failure :
    Bool
    → EndpointAnswers
    → String
    → String
    → EndpointTables
    → Answer (List Endpoint)
    → EndpointTables × Result (Unit {0})
unfolding notify
clear_failure wired a org_id id s (fails e) = (s, err new_internal_error)
clear_failure wired a org_id id s (answers rows) =
    elim (Endpoints.set_first_failure a.clear_works a.now id none rows) [
      | fails e ↦ (record s { rows = rows }, err new_internal_error)
      | answers rows' ↦ (notify wired org_id s rows', ok tt)
    ]

-- The end of `ReEnableEndpoint`.
unfoldable pub enable_found :
    Bool
    → EndpointAnswers
    → EndpointTables
    → Result (AppRef × Endpoint)
    → EndpointTables × Result (Unit {0})
unfolding clear_failure
enable_found wired a s (err e) = (s, err e)
enable_found wired a s (ok (app, ep)) =
    clear_failure wired a app.org_id ep.id s
      (Endpoints.set_disabled a.disable_works a.now ep.id none s.rows)

-- `ReEnableEndpoint`
unfoldable pub re_enable_endpoint :
    Bool
    → Resolver
    → EndpointAnswers
    → PoolAssignment
    → EndpointTables
    → EndpointTables × Result (Unit {0})
unfolding enable_found
re_enable_endpoint wired r a i s = enable_found wired a s (find_endpoint r a i s.rows)

-- A move that fails has changed nothing.
abbrev pub IsKept : EndpointTables → EndpointTables × Result (Unit {0}) → Type 0
IsKept s (s', ok x) = Unit {0}
IsKept s (s', err e) = s' ≡ s

pub move_endpoint_pool-IsKept :
    (wired : Bool) (r : Resolver) (a : EndpointAnswers) (i : PoolAssignment) (s : EndpointTables)
    → IsKept s (move_endpoint_pool wired r a i s)
unfolding move_endpoint_pool move_found
move_endpoint_pool-IsKept wired r a i s = tested (is_blank i.pool)
  where
    written :
        (app : AppRef) (w : Answer (List Endpoint))
        → IsKept s (elim w [
          | fails e ↦ (s, err new_internal_error)
          | answers rows ↦ (notify wired app.org_id s rows, ok tt)
        ])
    written app (fails e) = refl
    written app (answers rows) = tt

    found : (f : Result (AppRef × Endpoint)) → IsKept s (move_found wired a i.pool s f)
    found (err e) = refl
    found (ok (app, ep)) = written app (Endpoints.set_pool a.write_works a.now ep.id i.pool s.rows)

    tested :
        (b : Bool)
        → IsKept s (
            if b
            then (s, err (new_validation_error "pool is required"))
            else move_found wired a i.pool s (find_endpoint r a i s.rows))
    tested true = refl
    tested false = found (find_endpoint r a i s.rows)

-- A call of `ReEnableEndpoint` that fails announces nothing; the first of its writes may stay.
abbrev pub IsQuiet : EndpointTables → EndpointTables × Result (Unit {0}) → Type 0
IsQuiet s (s', ok x) = Unit {0}
IsQuiet s (s', err e) = s'.announced ≡ s.announced

pub re_enable_endpoint-IsQuiet :
    (wired : Bool) (r : Resolver) (a : EndpointAnswers) (i : PoolAssignment) (s : EndpointTables)
    → IsQuiet s (re_enable_endpoint wired r a i s)
unfolding re_enable_endpoint enable_found clear_failure
re_enable_endpoint-IsQuiet wired r a i s = found (find_endpoint r a i s.rows)
  where
    cleared :
        (org_id : String) (rows : List Endpoint) (w : Answer (List Endpoint))
        → IsQuiet s (elim w [
          | fails e ↦ (record s { rows = rows }, err new_internal_error)
          | answers rows' ↦ (notify wired org_id s rows', ok tt)
        ])
    cleared org_id rows (fails e) = refl
    cleared org_id rows (answers rows') = tt

    disabled :
        (org_id id : String) (w : Answer (List Endpoint))
        → IsQuiet s (clear_failure wired a org_id id s w)
    disabled org_id id (fails e) = refl
    disabled org_id id (answers rows) =
        cleared org_id rows (Endpoints.set_first_failure a.clear_works a.now id none rows)

    found : (f : Result (AppRef × Endpoint)) → IsQuiet s (enable_found wired a s f)
    found (err e) = refl
    found (ok (app, ep)) =
        disabled app.org_id ep.id (Endpoints.set_disabled a.disable_works a.now ep.id none s.rows)

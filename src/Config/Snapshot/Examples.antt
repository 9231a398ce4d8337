-- ===== src/Config/Snapshot/Examples.antt =====
-- The snapshot of the shared data.
use huxio.Prelude.{◌≡◌, refl, [], ◌++◌, keep, some}
use huxio.Prelude.Dict.{get, put}
use huxio.Config.Snapshot.{
  build_snapshot, initial, new_application, deliverable_to, matching_endpoints,
}
use huxio.Config.Snapshot.Matching.{subscribed, unfiltered, built, matching_endpoints-scan}
use huxio.Fixtures.{data_set, app, opens, no_headers}

app_known : get (initial 200 data_set).apps "app" ≡ some (new_application app)
unfolding initial get put new_application
app_known = refl

matching_endpoints-scan_example :
    matching_endpoints (build_snapshot opens no_headers 200 data_set).0 "app" "invoice.paid" []
    ≡ keep
        (deliverable_to [])
        (subscribed "app" "invoice.paid" (built opens no_headers 200 data_set.endpoints))
      ++ keep (deliverable_to []) (unfiltered "app" (built opens no_headers 200 data_set.endpoints))
matching_endpoints-scan_example =
    matching_endpoints-scan opens no_headers 200 data_set "app" "invoice.paid" [] app app_known

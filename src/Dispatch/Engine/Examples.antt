-- ===== src/Dispatch/Engine/Examples.antt =====
-- The engine on the shared data.
use huxio.Prelude.{
  ◌+◌, ◌*◌, ◌≤◌, ◌≡◌, refl, true, false, not, ◌&&◌, some, [], ◌∷◌, arith, ltb, All, length,
  contains,
}
use huxio.Prelude.Dict.{get, put}
use huxio.Domain.Endpoint.{deliverable, disabled, deleted, active_secrets}
use huxio.Domain.Task.{deliver, fanout, retryable}
use huxio.Retry.{max_attempts}
use huxio.Store.Queue.{ids, claim, selected, order_rows, before, ready}
use huxio.Config.Snapshot.{
  build_snapshot, add_endpoints, build_endpoint, initial, index_endpoint, route, new_application,
  matching_endpoints,
}
use huxio.Dispatch.Breaker.{opened, closed, second}
use huxio.Dispatch.Ports.{succeeded}
use huxio.Dispatch.Engine.{perform_all}
use huxio.Dispatch.Engine.Claim.{claim_and_dispatch, claim_request, replies}
use huxio.Dispatch.Engine.Claim.Budget.{
  claim_and_dispatch-in_flight, claim_and_dispatch-AllUnlocked, AllUnlocked,
}
use huxio.Dispatch.Engine.Fanout.{handle_fanout, found, not_found}
use huxio.Dispatch.Engine.Fanout.Kept.{handle_fanout-IsKept, IsKept}
use huxio.Dispatch.Engine.Health.{Run, apply_health_transitions}
use huxio.Dispatch.Engine.Health.Writes.{AllMarked}
use huxio.Dispatch.Engine.Health.Slow.{apply_health_transitions-IsDue, IsDue}
use huxio.Dispatch.Engine.Attempt.{verdict}
use huxio.Dispatch.Engine.Attempt.Retries.{Agrees, verdict-is_pending, is_pending}
use huxio.Dispatch.Engine.Deliver.{handle_deliver}
use huxio.Dispatch.Engine.Deliver.Disposal.{handle_deliver-IsDisposed, IsDisposed}
use huxio.Dispatch.Engine.Deliver.Requests.{handle_deliver-IsPermitted, IsPermitted}
use huxio.Dispatch.Engine.Deliver.Probe.{handle_deliver-IsProbing, IsProbing, IsCooled}
use huxio.Domain.Endpoint.{hmac256}
use huxio.Domain.Signing.{
  Key, headers, headers_with, header_names, sign, sign_all, sign_one, decimal, standard,
}
use huxio.Dispatch.Engine.Attempt.{build_headers}
use huxio.Dispatch.Engine.Attempt.Signed.{CarriesSignature, build_headers-CarriesSignature}
use huxio.Prelude.{String, List, bytes}
use huxio.Prelude.Dict.{Dict}
use huxio.Fixtures.{
  crypto, task, queue, snapshot, message, engine, options, lane, response, answers, fanout_answers,
  built_endpoint,
}

claim_and_dispatch-in_flight_example :
    let r = claim_and_dispatch options (7 ∷ []) replies 200 1 5 queue in
    (r.in_flight ≤ options.max_inflight)
    × (r.count ≤ options.claim_batch_size)
    × (1 + r.count ≤ options.max_inflight)
claim_and_dispatch-in_flight_example =
    claim_and_dispatch-in_flight options (7 ∷ []) replies 200 1 5 queue (omega arith)

stopped_in_the_middle : (claim_and_dispatch options (7 ∷ []) replies 200 0 1 queue).stopped ≡ true
unfolding claim_and_dispatch claim_request claim selected order_rows before ready
stopped_in_the_middle = refl

claim_and_dispatch-AllUnlocked_example :
    let r = claim_and_dispatch options (7 ∷ []) replies 200 0 1 queue in
    (length r.started ≡ 1) × AllUnlocked (ids r.started) r.queue
claim_and_dispatch-AllUnlocked_example =
    claim_and_dispatch-AllUnlocked options (7 ∷ []) replies 200 0 1 queue stopped_in_the_middle

fanout_in_queue : contains (ids queue) 1 ≡ true
fanout_in_queue = refl

handle_fanout-IsKept_example :
    All
      (IsKept engine
        (task 1 fanout)
        (perform_all 400 3 (true ∷ []) (handle_fanout engine fanout_answers (task 1 fanout)) queue))
      (matching_endpoints snapshot "app" "invoice.paid" [])
handle_fanout-IsKept_example =
    handle_fanout-IsKept engine fanout_answers (task 1 fanout) snapshot message 400 3 (true ∷ [])
      queue refl refl fanout_in_queue (omega arith)

abbrev health : Run
health =
    apply_health_transitions engine (answers not_found).fails built_endpoint (7 * second) false
      (lane closed)

apply_health_transitions-IsDue_example :
    All (IsDue engine built_endpoint (7 * second) false (lane closed)) health.1 × AllMarked health
apply_health_transitions-IsDue_example =
    apply_health_transitions-IsDue engine (answers not_found).fails built_endpoint (7 * second)
      false (lane closed)

verdict-is_pending_example :
    (is_pending (verdict engine 100 (task 2 deliver) (response 500)).status ≡ (
      not (succeeded (response 500))
      && retryable (task 2 deliver).trigger_type
      && ltb ((task 2 deliver).attempt + 1) (max_attempts engine.policy)))
    × Agrees 100 (task 2 deliver) (verdict engine 100 (task 2 deliver) (response 500))
verdict-is_pending_example = verdict-is_pending engine 100 (task 2 deliver) (response 500)

handle_deliver-IsDisposed_example :
    IsDisposed
      (answers (found (1 ∷ [])))
      2
      (handle_deliver engine (answers (found (1 ∷ []))) (task 2 deliver) (some (lane closed))).1
handle_deliver-IsDisposed_example =
    handle_deliver-IsDisposed engine (answers (found (1 ∷ []))) (task 2 deliver)
      (some (lane closed))

handle_deliver-IsPermitted_example :
    All
      (IsPermitted engine (answers (found (1 ∷ []))) (task 2 deliver) (some (lane closed)))
      (handle_deliver engine (answers (found (1 ∷ []))) (task 2 deliver) (some (lane closed))).1
handle_deliver-IsPermitted_example =
    handle_deliver-IsPermitted engine (answers (found (1 ∷ []))) (task 2 deliver)
      (some (lane closed))

endpoint_known : get snapshot.endpoints "ep1" ≡ some built_endpoint
unfolding build_snapshot add_endpoints build_endpoint initial index_endpoint route new_application
    active_secrets get put
endpoint_known = refl

endpoint_live : deliverable built_endpoint.row ≡ true
unfolding deliverable disabled deleted
endpoint_live = refl

lane-IsCooled : IsCooled 1000 (lane opened)
lane-IsCooled = record {
  is_open = refl;
  cooled = omega arith;
  slot_free = omega arith;
  unlimited = refl;
}

handle_deliver-IsProbing_example :
    IsProbing 2 (handle_deliver engine (answers not_found) (task 2 deliver) (some (lane opened)))
handle_deliver-IsProbing_example =
    handle_deliver-IsProbing engine (answers not_found) (task 2 deliver) snapshot "ep1"
      built_endpoint (lane opened) refl refl endpoint_known endpoint_live lane-IsCooled refl

abbrev signed : Dict String
signed =
    ("webhook-id", "msg")
    ∷ ("webhook-timestamp", "1700000000")
    ∷ ("webhook-signature", "v1,signature")
    ∷ []

abbrev keys : List Key
keys = record { key_type = hmac256; secret = bytes "whsec_key" } ∷ []

signs : headers crypto standard "msg" 1700000000 (42 ∷ []) keys ≡ some signed
unfolding headers headers_with header_names sign sign_all sign_one decimal
signs = refl

build_headers-CarriesSignature_example :
    (text : String) × (sign crypto "msg" 1700000000 (42 ∷ []) keys ≡ some text)
    × CarriesSignature standard "msg" text 1700000000 (build_headers signed built_endpoint)
build_headers-CarriesSignature_example =
    build_headers-CarriesSignature crypto standard "msg" 1700000000 (42 ∷ []) keys built_endpoint
      signed signs

-- ===== src/UseCases/Replay/Calls.antt =====
-- The calls of internal/application/usecases/attempt_usecase.go, but for the plain lists.

use huxio.Prelude.{
  ℕ, ◌+◌, Bool, not, ◌&&◌, Option, none, some, List, [], ◌∷◌, String, str_eq, ltb, leb,
  if◌then◌else◌, ◌*◌, ◌/◌, is_set,
}
use huxio.Domain.Errors.{
  Result, ok, err, AppError, ◌>>=◌, ◌>>◌, fail_if, new_not_found_error, new_internal_error,
}
use huxio.Domain.Ids.{Ksuid, time_of}
use huxio.Domain.Task.{manual}
use huxio.Store.Filters.{no_filter, equal_to, any_of}
use huxio.Store.Messages.{Message}
use huxio.Store.Attempts.{AttemptFilters, AttemptStats, attempt_stats}
use huxio.UseCases.{AppRef, resolve}
use huxio.UseCases.Ingest.{day}
use huxio.UseCases.Replay.{
  ReplayAnswers, QueueTable, ReplayResult, RecoverInput, ReplayInput, validate_replay_window,
  resolve_endpoint, no_filters, window, enqueue_replays, nothing, replay_filtered,
}

-- The filters of `Recover`, after its checks.
unfoldable pub recover_filters : ReplayAnswers → AppRef → RecoverInput → Result AttemptFilters
unfolding resolve_endpoint window validate_replay_window
recover_filters a app i = do
  endpoint_id ← resolve_endpoint a app.id i.endpoint_id
  validate_replay_window i.since i.until
  ok (record (window app.id i.since i.until) { endpoint_id = some (equal_to endpoint_id) })

resolve_all : ReplayAnswers → String → List String → Result (List String)
unfolding resolve_endpoint
resolve_all a app_id [] = ok []
resolve_all a app_id (key ∷ keys) = do
  id ← resolve_endpoint a app_id key
  rest ← resolve_all a app_id keys
  ok (id ∷ rest)

-- The filters of `Replay`, after its checks. The input's event types are not read.
unfoldable pub replay_filters : ReplayAnswers → AppRef → ReplayInput → Result AttemptFilters
unfolding resolve_all window validate_replay_window
replay_filters a app i = do
  validate_replay_window i.since i.until
  ids ← resolve_all a app.id i.endpoint_ids
  ok (record (window app.id i.since i.until) {
    endpoint_id = elim ids [ [] ↦ none | id ∷ rest ↦ some (any_of (id ∷ rest)) ];
  })

-- A replay of the failed deliveries that the filters give, in the application.
run_replay :
    Ksuid
    → String
    → ReplayAnswers
    → Result AppRef
    → (AppRef → Result AttemptFilters)
    → QueueTable
    → QueueTable × ReplayResult × Option AppError
unfolding replay_filtered
run_replay k pool a (err e) filters q = (q, nothing, some e)
run_replay k pool a (ok app) filters q = elim (filters app) [
  | err e ↦ (q, nothing, some e)
  | ok f ↦ replay_filtered k app pool a f q
]

-- `Recover`
unfoldable pub recover :
    Ksuid
    → String
    → ReplayAnswers
    → RecoverInput
    → QueueTable
    → QueueTable × ReplayResult × Option AppError
unfolding run_replay
recover k pool a i q =
    run_replay k pool a (resolve a.resolver i.org_id i.app_id_or_uid).0
      (λ app. recover_filters a app i) q

-- `Replay`
unfoldable pub replay :
    Ksuid
    → String
    → ReplayAnswers
    → ReplayInput
    → QueueTable
    → QueueTable × ReplayResult × Option AppError
unfolding run_replay
replay k pool a i q =
    run_replay k pool a (resolve a.resolver i.org_id i.app_id_or_uid).0
      (λ app. replay_filters a app i) q

-- `messageCreatedAt`: the message, in the application, within the day that its id names.
abbrev pub in_day : ℕ → ℕ → Bool
in_day at created_at = leb (at / day * day) created_at && ltb created_at (at / day * day + day)

find_message : Bool → (Message → Bool) → List Message → Result Message
find_message works p [] =
    if works then err (new_not_found_error "message") else err new_internal_error
find_message works p (m ∷ ms) =
    let rest = find_message works p ms in
    if not works then err new_internal_error else if p m then ok m else rest

unfoldable pub message_created_at : Ksuid → ReplayAnswers → String → String → Result ℕ
unfolding find_message
message_created_at k a app_id msg_id = elim (time_of k msg_id) [
  | none ↦ err (new_not_found_error "message")
  | some at ↦ do
    m ←
        find_message a.message_works
          (λ m.
            str_eq m.app_id app_id
            && str_eq m.id msg_id
            && in_day at m.created_at
            && not (is_set m.deleted_at))
          a.messages
    ok m.created_at
]

-- The application, the endpoint and the message of a resend, looked up in this order.
unfoldable pub resend_target :
    Ksuid → ReplayAnswers → String → String → String → String → Result (AppRef × String × ℕ)
unfolding message_created_at resolve_endpoint
resend_target k a org_id app_key msg_id endpoint_key = do
  app ← (resolve a.resolver org_id app_key).0
  endpoint_id ← resolve_endpoint a app.id endpoint_key
  created_at ← message_created_at k a app.id msg_id
  ok (app, endpoint_id, created_at)

-- `Resend`: one manual delivery.
unfoldable pub resend :
    Ksuid
    → String
    → ReplayAnswers
    → String
    → String
    → String
    → String
    → QueueTable
    → QueueTable × Result (Unit {0})
resend k pool a org_id app_key msg_id endpoint_key q =
    elim (resend_target k a org_id app_key msg_id endpoint_key) [
      | err e ↦ (q, err e)
      | ok (app, endpoint_id, created_at) ↦
          if not (a.enqueue_works msg_id) then (q, err new_internal_error) else (
            enqueue_replays app pool created_at manual a.now
                (record { msg_id = msg_id; endpoint_id = endpoint_id } ∷ []) q,
            ok tt,
          )
    ]

-- `Stats`, for a window that begins at a time, or for all of the log.
unfoldable pub stats : ReplayAnswers → String → String → String → Option ℕ → Result AttemptStats
stats a org_id app_key endpoint_key since = do
  app ← (resolve a.resolver org_id app_key).0
  endpoint_id ← resolve_endpoint a app.id endpoint_key
  fail_if (not a.list_works) new_internal_error
  ok (
      attempt_stats
        (record no_filters {
          app_id = some (equal_to app.id);
          endpoint_id = some (equal_to endpoint_id);
          created_at = elim since [
            | none ↦ none
            | some at ↦ some (record no_filter { gte = some at })
          ];
        })
        a.attempts)

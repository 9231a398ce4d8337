-- ===== src/Store/Attempts.antt =====
-- internal/adapters/outbound/persistence/postgres/attempt_repo.go: the delivery log. Its rows are
-- never deleted one by one. Texts are ordered by their code points, as under the C collation.
pub mod Seen
use Prim.Native.Nat.{Ordering}
use Prim.Native.String.{compare}
use huxio.Prelude.{
  ℕ, ◌+◌, ◌*◌, Bool, true, false, not, ◌&&◌, ◌||◌, Option, none, some, List, [], ◌∷◌, ◌++◌, map,
  String, str_eq, ltb, leb, ◌==◌, if◌then◌else◌, any, keep, take, length, sort_by, is_set,
}
use huxio.Domain.Task.{TriggerType, scheduled, manual, bulk_replay}
use huxio.Domain.Attempt.{DeliveryAttempt, AttemptStatus, succeeded, pending_retry, failed}
use huxio.Store.Filters.{Column, Filter, times, passes}

abbrev pub text_lt : String → String → Bool
text_lt a b = elim (compare a b) [ Ordering.lt ↦ true | _ ↦ false ]

abbrev pub texts : Column String
texts = record { eq = str_eq; lt = text_lt; ilike = λ a b. false }

-- The numbers that the statuses and triggers are stored as.
abbrev pub status_number : AttemptStatus → ℕ
status_number succeeded = 0
status_number pending_retry = 1
status_number failed = 2

abbrev pub trigger_number : TriggerType → ℕ
trigger_number scheduled = 0
trigger_number manual = 1
trigger_number bulk_replay = 2

abbrev pub statuses : Column AttemptStatus
statuses = record {
  eq = λ a b. status_number a == status_number b;
  lt = λ a b. ltb (status_number a) (status_number b);
  ilike = λ a b. false;
}

abbrev pub triggers : Column TriggerType
triggers = record {
  eq = λ a b. trigger_number a == trigger_number b;
  lt = λ a b. ltb (trigger_number a) (trigger_number b);
  ilike = λ a b. false;
}

pub record AttemptFilters : Type 0 where
  pub id : Option (Filter String)
  pub org_id : Option (Filter String)
  pub app_id : Option (Filter String)
  pub msg_id : Option (Filter String)
  pub endpoint_id : Option (Filter String)
  pub status : Option (Filter AttemptStatus)
  pub status_code_class : Option ℕ
  pub created_at : Option (Filter ℕ)
  pub trigger_type : Option (Filter TriggerType)

abbrev pub in_class : Option ℕ → ℕ → Bool
in_class none code = true
in_class (some k) code = leb (k * 100) code && ltb code (k * 100 + 100)

-- `applyAttemptFilters`
unfoldable pub passes_attempt : AttemptFilters → DeliveryAttempt → Bool
passes_attempt f a =
    passes texts f.id a.id
    && passes texts f.org_id a.org_id
    && passes texts f.app_id a.app_id
    && passes texts f.msg_id a.msg_id
    && passes texts f.endpoint_id a.endpoint_id
    && passes times f.created_at a.created_at
    && passes statuses f.status a.status
    && passes triggers f.trigger_type a.trigger_type
    && in_class f.status_code_class a.response_status_code

pub record FailedDelivery : Type 0 where
  pub msg_id : String
  pub endpoint_id : String

abbrev pub same_delivery : DeliveryAttempt → DeliveryAttempt → Bool
same_delivery a b = str_eq a.msg_id b.msg_id && str_eq a.endpoint_id b.endpoint_id

-- created_at DESC, id DESC
abbrev pub newer : DeliveryAttempt → DeliveryAttempt → Bool
newer a b = ltb b.created_at a.created_at || (a.created_at == b.created_at && text_lt b.id a.id)

-- DISTINCT ON (msg_id, endpoint_id), for rows with different ids
unfoldable pub is_latest : List DeliveryAttempt → DeliveryAttempt → Bool
is_latest rows a = not (any (λ b. same_delivery a b && newer b a) rows)

unfoldable pub failed_in : List DeliveryAttempt → List DeliveryAttempt
unfolding is_latest
failed_in rows = keep (λ a. is_latest rows a && status_number a.status == 2) rows

-- ORDER BY msg_id
abbrev pub before_msg : DeliveryAttempt → DeliveryAttempt → Bool
before_msg a b = not (text_lt b.msg_id a.msg_id)

abbrev pub delivery_of : DeliveryAttempt → FailedDelivery
delivery_of a = record { msg_id = a.msg_id; endpoint_id = a.endpoint_id }

-- `ListFailedDeliveries`; a limit that is not positive becomes 1000.
unfoldable pub list_failed_deliveries :
    AttemptFilters → ℕ → List DeliveryAttempt → List FailedDelivery
unfolding failed_in
list_failed_deliveries f limit rows =
    take (if limit == 0 then 1000 else limit)
      (map delivery_of (sort_by before_msg (failed_in (keep (passes_attempt f) rows))))

pub record AttemptStats : Type 0 where
  pub succeeded_count : ℕ
  pub pending_count : ℕ
  pub failed_count : ℕ

abbrev pub with_status : ℕ → List DeliveryAttempt → ℕ
with_status n rows = length (keep (λ a. status_number a.status == n) rows)

-- `Stats`
unfoldable pub attempt_stats : AttemptFilters → List DeliveryAttempt → AttemptStats
attempt_stats f rows =
    let seen = keep (passes_attempt f) rows in
    record {
      succeeded_count = with_status 0 seen;
      pending_count = with_status 1 seen;
      failed_count = with_status 2 seen;
    }

-- ===== src/Domain/Attempt.antt =====
-- internal/domain/entities/delivery_attempt.go: the record of one delivery attempt.
use huxio.Prelude.{ℕ, Option, List, String}
use huxio.Domain.Task.{TriggerType}

pub data AttemptStatus : Type 0 where
  succeeded pending_retry failed : AttemptStatus

pub record DeliveryAttempt : Type 0 where
  pub id : String
  pub created_at : ℕ
  pub org_id : String
  pub app_id : String
  pub msg_id : String
  pub endpoint_id : String
  pub url : String
  pub status : AttemptStatus
  pub response_status_code : ℕ
  pub response_body : List ℕ
  pub response_duration_ms : ℕ
  pub attempt_number : ℕ
  pub trigger_type : TriggerType
  pub next_attempt_at : Option ℕ

-- ===== src/Dispatch/Ports.antt =====
-- internal/application/dispatch/ports.go: what the engine is given and what it hands on.
use huxio.Prelude.{ℕ, Bool, not, ◌&&◌, Option, String, leb, ltb, is_set, ℤ, List}
use huxio.Domain.Attempt.{DeliveryAttempt}

pub record DeliveryResult : Type 0 where
  pub status_code : ℕ
  pub body : List ℕ
  pub duration : ℕ
  pub err : Option (List ℕ)
  pub timeout : Bool
  pub refused : Bool
  pub retry_after : Option ℤ

-- `DeliveryResult.Succeeded`: only a 2xx counts.
unfoldable pub succeeded : DeliveryResult → Bool
succeeded r = not (is_set r.err) && leb 200 r.status_code && ltb r.status_code 300

pub data TaskAction : Type 0 where
  complete : TaskAction
  retry : TaskAction

pub record TaskOutcome : Type 0 where
  pub task_id : ℕ
  pub action : TaskAction
  pub delay : ℕ

pub record AttemptRecord : Type 0 where
  pub attempt : DeliveryAttempt
  pub task : Option TaskOutcome

pub data EventType : Type 0 where
  attempt_failing attempt_recovered attempt_exhausted endpoint_disabled : EventType

pub record OperationalEvent : Type 0 where
  pub event : EventType
  pub org_id : String
  pub app_id : String
  pub endpoint_id : String
  pub msg_id : String

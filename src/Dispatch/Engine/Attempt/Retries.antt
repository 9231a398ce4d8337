-- ===== src/Dispatch/Engine/Attempt/Retries.antt =====
-- When a failed delivery is tried again, and the headers of a request.
use huxio.Prelude.{
  ℕ, ◌+◌, ◌≡◌, refl, Bool, true, false, not, Option, none, some, arith, if◌then◌else◌, ◌⊎◌, inl,
  inr, Bool-cases, Option-cases, ltb, ltb→lt, is_set, ◌&&◌,
}
use huxio.Domain.Task.{DeliveryTask, retryable}
use huxio.Domain.Attempt.{AttemptStatus, pending_retry, failed}
use huxio.Domain.Attempt
use huxio.Retry.{Outcome, Policy, delay, max_attempts}
use huxio.Retry.Bounds.{delay-none_iff}
use huxio.Dispatch.Ports.{DeliveryResult, succeeded}
use huxio.Dispatch.Ports
use huxio.Dispatch.Engine.{Engine}
use huxio.Dispatch.Engine.Attempt.{Verdict, finished_with, retried, verdict}

-- The record of the attempt agrees with what becomes of the task.
pub data Agrees (now : ℕ) (task : DeliveryTask) (v : Verdict) : Type 0 where
  again :
      (d : ℕ)
      → v.status ≡ pending_retry
      → v.next_attempt_at ≡ some (now + d)
      → v.outcome ≡ record { task_id = task.id; action = Ports.retry; delay = d }
      → Agrees now task v
  over :
      (v.status ≡ Attempt.succeeded) ⊎ (v.status ≡ failed)
      → v.next_attempt_at ≡ none
      → v.outcome ≡ record { task_id = task.id; action = Ports.complete; delay = 0 }
      → Agrees now task v

abbrev pub is_pending : AttemptStatus → Bool
is_pending pending_retry = true
is_pending _ = false

if-Agrees :
    (now : ℕ) (task : DeliveryTask) (b : Bool) (v w : Verdict)
    → Agrees now task v
    → Agrees now task w
    → Agrees now task (if b then v else w)
if-Agrees now task true v w h k = h
if-Agrees now task false v w h k = k

retried-Agrees :
    (now : ℕ) (task : DeliveryTask) (d : Option ℕ) → Agrees now task (retried now task.id d)
unfolding retried finished_with
retried-Agrees now task none = over (inr refl) refl refl
retried-Agrees now task (some d) = again d refl refl refl

-- The attempt's record and its task's fate agree, whatever the result: the row is retried with the
-- delay that the record shows, or completed and the record shows no further attempt.
pub verdict-Agrees :
    (e : Engine) (now : ℕ) (task : DeliveryTask) (r : DeliveryResult)
    → Agrees now task (verdict e now task r)
unfolding verdict finished_with
verdict-Agrees e now task r =
    let o : Outcome = record {
      status_code = r.status_code;
      timeout = r.timeout;
      retry_after = r.retry_after;
    } in
    let next = retried now task.id (delay e.policy task.attempt o) in
    if-Agrees now task (succeeded r) (finished_with Attempt.succeeded task.id)
      (if not (retryable task.trigger_type) then finished_with failed task.id else next)
      (over (inl refl) refl refl)
      (if-Agrees now task (not (retryable task.trigger_type)) (finished_with failed task.id) next
        (over (inr refl) refl refl) (retried-Agrees now task (delay e.policy task.attempt o)))

retried-status : (now id : ℕ) (d : Option ℕ) → is_pending (retried now id d).status ≡ is_set d
unfolding retried finished_with
retried-status now id none = refl
retried-status now id (some d) = refl

delay-is_set :
    (p : Policy) (attempt : ℕ) (o : Outcome)
    → is_set (delay p attempt o) ≡ ltb (attempt + 1) (max_attempts p)
delay-is_set p attempt o = elim (Bool-cases (ltb (attempt + 1) (max_attempts p))) [
  | inl more ↦ elim (Option-cases (delay p attempt o)) [
    | inl last ↦ absurd (omega (arith, ltb→lt _ _ more, (delay-none_iff p attempt o).0 last))
    | inr (d, e) ↦ rw (e, more) refl
  ]
  | inr used ↦ rw ((delay-none_iff p attempt o).1 (ground (arith, used)), used) refl
]

-- The record of an attempt shows another one exactly if it failed, its task is of the schedule rather
-- than a manual or a bulk replay, and it was not the last one that the policy allows. The outcome
-- agrees with that: then the task is retried with the delay after which the record shows the next
-- attempt, and else it is completed and the record shows none.
pub verdict-is_pending :
    (e : Engine) (now : ℕ) (task : DeliveryTask) (r : DeliveryResult)
    → (is_pending (verdict e now task r).status ≡ (
        not (succeeded r)
        && retryable task.trigger_type
        && ltb (task.attempt + 1) (max_attempts e.policy)))
      × Agrees now task (verdict e now task r)
unfolding verdict finished_with
verdict-is_pending e now task r = (due, verdict-Agrees e now task r)
  where
    due : is_pending (verdict e now task r).status ≡ (
        not (succeeded r)
        && retryable task.trigger_type
        && ltb (task.attempt + 1) (max_attempts e.policy))
    due =
        let o : Outcome = record {
          status_code = r.status_code;
          timeout = r.timeout;
          retry_after = r.retry_after;
        } in
        ground (
          arith,
          retried-status now task.id (delay e.policy task.attempt o),
          delay-is_set e.policy task.attempt o,
        )

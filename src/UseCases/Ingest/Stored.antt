-- ===== src/UseCases/Ingest/Stored.antt =====
-- What a call of `Ingest` leaves in the tables, for each of its results.
use mathlib.Core.Path.{subst}
use huxio.Prelude.{
  ℕ, ◌+◌, ◌≡◌, refl, sym, ◌⊎◌, inl, inr, Bool, true, false, Option, none, some, [], ◌∷◌, ◌++◌,
  String, any, Bool-cases, ◌*◌, ap, length, ℤ, pos, negsuc, arith,
}
use huxio.Domain.Errors.{Result, ok, err, new_internal_error}
use huxio.Domain.Ids.{Ksuid, new_at, time_of}
use huxio.Config.Snapshot.{Snapshot}
use huxio.Domain.Task.{fanout, partition_key_for}
use huxio.Store.Queue.{EnqueueTask, enqueue}
use huxio.Store.Messages.{
  Message, Answer, answers, fails, conflict, failed, RepoError, create_message, clashes, Commit,
  commits, aborts, loses_reply, within_transaction, commit,
}
use huxio.UseCases.{AppRef, Resolver, resolve}
use huxio.UseCases.Ingest.{
  IngestConfig, IngestInput, IngestResult, Codec, IngestAnswers, Tables, validate, message_of,
  retention, day, fanout_task, store, store_error, accept, ingest_message, ingest,
}

-- The tables with the message and its fan-out task.
abbrev pub with_message : IngestConfig → ℕ → Message → Tables → Tables
with_message cfg now m t = record {
  messages = t.messages ++ m ∷ [];
  queue = enqueue now t.next_id (fanout_task cfg now m ∷ []) t.queue;
  next_id = t.next_id + 1;
}

-- How many days a message is kept: as many as the request says, or else the configuration's.
abbrev pub days_kept : ℕ → Option ℤ → ℕ
days_kept default none = default
days_kept default (some (pos n)) = n
days_kept default (some (negsuc n)) = 0

-- The message is the caller's, in that application.
pub record IsSent (cfg : IngestConfig) (c : Codec) (app : AppRef) (i : IngestInput) (m : Message)
    : Type 0 where
  pub org_id : m.org_id ≡ app.org_id
  pub app_id : m.app_id ≡ app.id
  pub event_type : m.event_type ≡ i.event_type
  pub uid : m.uid ≡ i.event_id
  pub channels : m.channels ≡ i.channels
  pub payload : m.payload ≡ c.encode i.payload
  pub payload_size : m.payload_size ≡ length i.payload
  pub expires_at :
      m.expires_at ≡ m.created_at + days_kept cfg.default_retention_days i.retention_days * day
  pub live : m.deleted_at ≡ none

-- The task expands the message: it is due at once, in the partition of its application.
pub record IsFanout (cfg : IngestConfig) (now : ℕ) (m : Message) (task : EnqueueTask) : Type 0 where
  pub kind : task.kind ≡ fanout
  pub partition_key : task.partition_key ≡ partition_key_for m.app_id
  pub pool : task.pool ≡ cfg.pool
  pub org_id : task.org_id ≡ m.org_id
  pub app_id : task.app_id ≡ m.app_id
  pub msg_id : task.msg_id ≡ m.id
  pub msg_created_at : task.msg_created_at ≡ m.created_at
  pub attempt : task.attempt ≡ 0
  pub visible_at : task.visible_at ≡ now

-- The tables have the message and one task of it more.
pub IsStored : IngestConfig → ℕ → Message → Tables → Tables → Type 0
IsStored cfg now m t t' =
    (task : EnqueueTask) × IsFanout cfg now m task
    × (t' ≡ record {
      messages = t.messages ++ m ∷ [];
      queue = enqueue now t.next_id (task ∷ []) t.queue;
      next_id = t.next_id + 1;
    })

with_message-IsStored :
    (cfg : IngestConfig) (now : ℕ) (m : Message) (t : Tables)
    → IsStored cfg now m t (with_message cfg now m t)
unfolding IsStored fanout_task
with_message-IsStored cfg now m t = (
  fanout_task cfg now m,
  record {
    kind = refl;
    partition_key = refl;
    pool = refl;
    org_id = refl;
    app_id = refl;
    msg_id = refl;
    msg_created_at = refl;
    attempt = refl;
    visible_at = refl;
  },
  refl,
)

-- An accepted message is in the table with its task, is the caller's in the application and clashed with
-- no stored one. After an error the tables are as before; or only the reply to the commit was lost.
abbrev pub IsAtomic :
    IngestConfig
    → Codec
    → AppRef
    → IngestInput
    → IngestAnswers
    → Tables
    → Tables × Result IngestResult
    → Type 0
IsAtomic cfg c app i a t (t', ok x) =
    IsStored cfg a.now x.message t t'
    × (any (clashes x.message) t.messages ≡ false)
    × IsSent cfg c app i x.message
    × (x.payload ≡ i.payload)
IsAtomic cfg c app i a t (t', err e) =
    (t' ≡ t)
    ⊎ ((m : Message) × IsStored cfg a.now m t t'
        × IsSent cfg c app i m
        × (a.end ≡ loses_reply)
        × (e ≡ new_internal_error))

days_kept-retention :
    (cfg : IngestConfig) (i : IngestInput) (days : Option ℤ)
    → i.retention_days ≡ days
    → retention cfg i ≡ days_kept cfg.default_retention_days days
days_kept-retention cfg i none h = rw h refl
days_kept-retention cfg i (some (pos n)) h = rw h (ground arith)
days_kept-retention cfg i (some (negsuc n)) h = rw h refl

message_of-IsSent :
    (cfg : IngestConfig) (c : Codec) (app : AppRef) (i : IngestInput) (id : String) (at : ℕ)
    → IsSent cfg c app i (message_of cfg c app i id at)
unfolding message_of
message_of-IsSent cfg c app i id at = record {
  org_id = refl;
  app_id = refl;
  event_type = refl;
  uid = refl;
  channels = refl;
  payload = refl;
  payload_size = refl;
  expires_at = ap (λ n. at + n * day) (days_kept-retention cfg i i.retention_days refl);
  live = refl;
}

store-cases :
    (cfg : IngestConfig) (a : IngestAnswers) (m : Message) (t : Tables)
    → ((any (clashes m) t.messages ≡ false)
        × (store cfg a m t ≡ answers (with_message cfg a.now m t)))
      ⊎ ((e : RepoError) × (store cfg a m t ≡ fails e))
unfolding store create_message
store-cases cfg a m t = elim (Bool-cases a.insert_works) [
  | inr broken ↦ inr (failed, rw broken refl)
  | inl works ↦ elim (Bool-cases (any (clashes m) t.messages)) [
    | inl old ↦ inr (conflict, rw (works, old) refl)
    | inr new ↦ elim (Bool-cases a.enqueue_works) [
      | inl queued ↦ inl (new, rw (works, new, queued) refl)
      | inr refused ↦ inr (failed, rw (works, new, refused) refl)
    ]
  ]
]

module _ (k : Ksuid) (cfg : IngestConfig) (c : Codec) (snapshot : Option Snapshot)
    (a : IngestAnswers) (app : AppRef) (i : IngestInput) (t : Tables) where
  ended :
      (m : Message) (end : Commit)
      → a.end ≡ end
      → IsSent cfg c app i m
      → any (clashes m) t.messages ≡ false
      → let (after, answer) = commit end t (with_message cfg a.now m t) in
        IsAtomic cfg c app i a t (after, accept snapshot i m answer)
  unfolding commit accept store_error
  ended m commits at shape new = (with_message-IsStored cfg a.now m t, new, shape, refl)
  ended m aborts at shape new = inl refl
  ended m loses_reply at shape new = inr (m, with_message-IsStored cfg a.now m t, shape, at, refl)

  transacted :
      (m : Message)
      → IsSent cfg c app i m
      → let (after, answer) = within_transaction a.begins a.end (store cfg a m) t in
        IsAtomic cfg c app i a t (after, accept snapshot i m answer)
  unfolding within_transaction accept
  transacted m shape = cases a.begins (store cfg a m t) (store-cases cfg a m t)
    where
      Goal : Bool → Answer Tables → Type 0
      Goal begins r =
          let (after, answer) = within_transaction begins a.end (λ _. r) t in
          IsAtomic cfg c app i a t (after, accept snapshot i m answer)

      cases :
          (begins : Bool) (r : Answer Tables)
          → ((any (clashes m) t.messages ≡ false) × (r ≡ answers (with_message cfg a.now m t)))
            ⊎ ((e : RepoError) × (r ≡ fails e))
          → Goal begins r
      cases false r split = inl refl
      cases true r (inl (new, stored)) =
          subst (Goal true) (sym stored) (ended m a.end refl shape new)
      cases true r (inr (e, failing)) = subst (Goal true) (sym failing) (inl refl)

  pub ingest_message-IsAtomic : IsAtomic cfg c app i a t (ingest_message k cfg c snapshot a app i t)
  unfolding ingest_message
  ingest_message-IsAtomic = cases (new_at k "msg" a.entropy a.now) (time_of k)
    where
      timed :
          (id : String) (at : Option ℕ)
          → IsAtomic cfg c app i a t (elim at [
            | none ↦ (t, err new_internal_error)
            | some created_at ↦
                let m = message_of cfg c app i id created_at in
                let (after, answer) = within_transaction a.begins a.end (store cfg a m) t in
                (after, accept snapshot i m answer)
          ])
      timed id none = inl refl
      timed id (some at) =
          transacted (message_of cfg c app i id at) (message_of-IsSent cfg c app i id at)

      cases :
          (minted : Option String) (time : String → Option ℕ)
          → IsAtomic cfg c app i a t (elim minted [
            | none ↦ (t, err new_internal_error)
            | some id ↦ elim (time id) [
              | none ↦ (t, err new_internal_error)
              | some created_at ↦
                  let m = message_of cfg c app i id created_at in
                  let (after, answer) = within_transaction a.begins a.end (store cfg a m) t in
                  (after, accept snapshot i m answer)
            ]
          ])
      cases none time = inl refl
      cases (some id) time = timed id (time id)

-- The same for a request that names an application the resolver finds; one that it does not find,
-- or that is not valid, is refused with that error and changes nothing.
abbrev pub Outcome :
    IngestConfig
    → Codec
    → Resolver
    → IngestInput
    → IngestAnswers
    → Tables
    → Tables × Result IngestResult
    → Result AppRef
    → Result (Unit {0})
    → Type 0
Outcome cfg c r i a t (t', x) (err e) valid = (t' ≡ t) × (x ≡ err e)
Outcome cfg c r i a t (t', x) (ok app) (err e) = (t' ≡ t) × (x ≡ err e)
Outcome cfg c r i a t res (ok app) (ok _) = IsAtomic cfg c app i a t res

-- A request for an unknown application, or an invalid one, is refused and changes nothing. Otherwise
-- an accepted message is stored with the caller's type, event id, channels and encoded payload, in the
-- application that was named, to be kept for the days that were asked for or else the configuration's;
-- exactly one fan-out task of it, due at once, is queued, and it clashed with no stored message. After an
-- error neither is stored, unless only the reply to the commit was lost, and then both are.
pub ingest-Outcome :
    (k : Ksuid) (cfg : IngestConfig) (c : Codec) (r : Resolver) (a : IngestAnswers)
    (i : IngestInput) (t : Tables)
    → Outcome cfg c r i a t
        (ingest k cfg c r a i t)
        (resolve r i.org_id i.app_id_or_uid).0
        (validate cfg c i)
unfolding ingest
ingest-Outcome k cfg c r a i t = cases (resolve r i.org_id i.app_id_or_uid).0 (validate cfg c i)
  where
    cases :
        (found : Result AppRef) (valid : Result (Unit {0}))
        → Outcome cfg c r i a t
            (elim found [
              | err e ↦ (t, err e)
              | ok app ↦ elim valid [
                | err e ↦ (t, err e)
                | ok _ ↦ ingest_message k cfg c r.snapshot a app i t
              ]
            ])
            found
            valid
    cases (err e) valid = (refl, refl)
    cases (ok app) (err e) = (refl, refl)
    cases (ok app) (ok _) = ingest_message-IsAtomic k cfg c r.snapshot a app i t

-- ===== src/UseCases/Ingest/Duplicates.antt =====
-- The deduplication of event ids, which the unique index on (app_id, uid, created_at) stands for. A
-- message's time is the second of its identifier.

use huxio.Prelude.{
  ℕ, ◌+◌, ◌*◌, ◌/◌, ◌^◌, ◌≤◌, ◌<◌, ◌≡◌, refl, true, false, some, List, [], ◌∷◌, String, ◌==◌, any,
  All, arith,
}
use huxio.Domain.Errors.{ok}
use huxio.Domain.Ids.{Ksuid, new_at, time_of, split, cut, tagged}
use huxio.Dispatch.Breaker.{second}
use huxio.Store.Messages.{
  Message, answers, create_message, clashes, commits, within_transaction, commit,
}
use huxio.UseCases.{AppRef, Resolver, resolve}
use huxio.UseCases.Ingest.{
  IngestConfig, IngestInput, IngestResult, Codec, IngestAnswers, Tables, validate, message_of,
  store, accept, matched, ingest_message, ingest,
}
use huxio.UseCases.Ingest.Stored.{with_message}

abbrev pub whole_second : ℕ → ℕ
whole_second t = t / second * second

-- The documented resolution of a KSUID: 32 bits of seconds since its epoch.
abbrev pub ksuid_epoch : ℕ
ksuid_epoch = 1_400_000_000

pub record IsTimed (k : Ksuid) : Type 0 where
  pub parse_random :
      (entropy at : ℕ) (body : String)
      → ksuid_epoch ≤ at / second
      → at / second < ksuid_epoch + 2 ^ 32
      → k.random_with_time entropy at ≡ some body
      → k.parse body ≡ some (whole_second at)

clashes-of_seconds :
    (m : Message) (rows : List Message)
    → All (λ r. (m.created_at == r.created_at) ≡ false) rows
    → any (clashes m) rows ≡ false
unfolding clashes
clashes-of_seconds m [] h = refl
clashes-of_seconds m (r ∷ rows) h = ground (arith, clashes-of_seconds m rows h.1)

cut-msg : (body : String) → cut (tagged "msg" body) ≡ some ("msg", body)
unfolding cut tagged
cut-msg body = refl

-- The id that is made now carries this second.
time_of-new_at :
    (k : Ksuid) (law : IsTimed k) (entropy at : ℕ) (body : String)
    → ksuid_epoch ≤ at / second
    → at / second < ksuid_epoch + 2 ^ 32
    → k.random_with_time entropy at ≡ some body
    → (new_at k "msg" entropy at ≡ some (tagged "msg" body))
      × (time_of k (tagged "msg" body) ≡ some (whole_second at))
unfolding new_at time_of split
time_of-new_at k law entropy at body low high made = (
  rw (made, new_at) refl,
  rw (cut-msg body, time_of) (rw (law.parse_random entropy at body low high made, time_of) refl),
)

-- The message of a request, with the identifier that has this body.
abbrev pub sent : IngestConfig → Codec → IngestAnswers → IngestInput → AppRef → String → Message
sent cfg c a i app body = message_of cfg c app i (tagged "msg" body) (whole_second a.now)

module _ (k : Ksuid) (law : IsTimed k) (cfg : IngestConfig) (c : Codec) (r : Resolver)
    (a : IngestAnswers) (i : IngestInput) (t : Tables) (app : AppRef) (body : String)
    (low : ksuid_epoch ≤ a.now / second) (high : a.now / second < ksuid_epoch + 2 ^ 32)
    (made : k.random_with_time a.entropy a.now ≡ some body)
    (found : (resolve r i.org_id i.app_id_or_uid).0 ≡ ok app) (valid : validate cfg c i ≡ ok tt)
    (begun : a.begins ≡ true) (inserts : a.insert_works ≡ true) (queues : a.enqueue_works ≡ true)
    (committed : a.end ≡ commits)
    (others : All (λ m. (whole_second a.now == m.created_at) ≡ false) t.messages) where
  store-sent :
      store cfg a (sent cfg c a i app body) t
      ≡ answers (with_message cfg a.now (sent cfg c a i app body) t)
  unfolding store create_message message_of
  store-sent =
      rw (inserts, clashes-of_seconds (sent cfg c a i app body) t.messages others, queues) refl

  -- A valid request for a known application, whose calls work and whose id is made in the range of a
  -- KSUID's seconds, is accepted when no stored message has its second, also if messages with the same
  -- event id are stored: the table then holds the event id once more.
  pub ingest_repeated :
      (x : IngestResult) × (ingest k cfg c r a i t
        ≡ (with_message cfg a.now (sent cfg c a i app body) t, ok x))
      × (x.message ≡ (sent cfg c a i app body))
      × (x.message.uid ≡ i.event_id)
  unfolding ingest ingest_message within_transaction commit accept message_of
  ingest_repeated = (
    record {
      message = (sent cfg c a i app body);
      matched_endpoints = matched r.snapshot (sent cfg c a i app body);
      payload = i.payload;
    },
    ground (arith, store-sent, time_of-new_at k law a.entropy a.now body low high made),
    refl,
    refl,
  )

-- ===== src/UseCases/Ingest/Examples.antt =====
-- A message with an event id, sent twice.
use huxio.Prelude.{
  ℕ, ◌+◌, ◌*◌, ◌≡◌, refl, true, false, none, some, [], ◌∷◌, String, str_eq, ◌==◌, if◌then◌else◌,
  arith, pos, All, eq_iff,
}
use huxio.Utils.{is_blank}
use huxio.Domain.Endpoint.{Application}
use huxio.Domain.Errors.{ok}
use huxio.Domain.Ids.{Ksuid}
use huxio.Dispatch.Breaker.{second}
use huxio.Store.Messages.{Message, commits}
use huxio.Store.Applications.{get_application}
use huxio.UseCases.{AppRef, Resolver, resolve}
use huxio.UseCases.Ingest.{
  IngestConfig, ingest_config, IngestInput, IngestResult, Codec, IngestAnswers, Tables, validate,
  ingest, message_of,
}
use huxio.UseCases.Ingest.Stored.{Outcome, ingest-Outcome, with_message}
use huxio.UseCases.Ingest.Duplicates.{IsTimed, whole_second, ksuid_epoch, ingest_repeated, sent}

abbrev first_time : ℕ
first_time = (ksuid_epoch + 100) * second + 7

abbrev next_time : ℕ
next_time = (ksuid_epoch + 101) * second + 9

-- A library that makes an id in one second only.
abbrev ksuid : Ksuid
ksuid = record {
  random_with_time =
      λ entropy at. if whole_second at == whole_second next_time then some "k2" else none;
  parse = λ body. if str_eq body "k2" then some (whole_second next_time) else none;
}

ksuid-parse :
    (at : ℕ) (body : String)
    → ksuid.random_with_time 0 at ≡ some body
    → ksuid.parse body ≡ some (whole_second at)
ksuid-parse at body made = ground (arith, eq_iff body "k2")

ksuid-IsTimed : IsTimed ksuid
ksuid-IsTimed = record { parse_random = λ entropy at body low high made. ksuid-parse at body made }

abbrev cfg : IngestConfig
cfg = record { max_payload_bytes = 1_048_576; default_retention_days = 90; pool = "default" }

abbrev codec : Codec
codec = record { json_valid = λ p. true; encode = λ p. p }

abbrev app : AppRef
app = record { id = "app"; org_id = "org" }

abbrev app_row : Application
app_row = record {
  id = "app";
  org_id = "org";
  uid = some "shop";
  name = "Shop";
  rate_limit = none;
  metadata = "{}";
  created_at = 0;
  updated_at = 0;
  deleted_at = none;
}

abbrev resolver : Resolver
resolver = record {
  snapshot = none;
  app_repo = some (app_row ∷ []);
  by_id_works = true;
  by_uid_works = true;
}

abbrev input : IngestInput
input = record {
  org_id = "org";
  app_id_or_uid = "shop";
  event_type = "paid";
  event_id = some "order-1";
  payload = 123 ∷ 125 ∷ [];
  channels = [];
  retention_days = none;
}

abbrev at : ℕ → IngestAnswers
at now = record {
  now = now;
  entropy = 0;
  begins = true;
  insert_works = true;
  enqueue_works = true;
  end = commits;
}

abbrev empty : Tables
empty = record { messages = []; queue = []; next_id = 1 }

abbrev stored : Message
stored = sent cfg codec (at first_time) input app "k1"

config_defaults : ingest_config (pos 0) (pos 0) "" ≡ cfg
unfolding ingest_config
config_defaults = refl

found : (resolve resolver "org" "shop").0 ≡ ok app
unfolding resolve get_application
found = refl

valid : validate cfg codec input ≡ ok tt
unfolding validate is_blank
valid = refl

abbrev once : Tables
once = record empty { messages = stored ∷ [] }

apart : All (λ m. (whole_second next_time == m.created_at) ≡ false) once.messages
unfolding message_of
apart = (refl, tt)

ingest-Outcome_example :
    Outcome cfg codec resolver input
      (at next_time)
      once
      (ingest ksuid cfg codec resolver (at next_time) input once)
      (resolve resolver "org" "shop").0
      (validate cfg codec input)
ingest-Outcome_example = ingest-Outcome ksuid cfg codec resolver (at next_time) input once

-- A second later the same event id is accepted again.
ingest_repeated_example :
    (x : IngestResult) × (ingest ksuid cfg codec resolver (at next_time) input once
      ≡ (with_message cfg next_time (sent cfg codec (at next_time) input app "k2") once, ok x))
    × (x.message ≡ sent cfg codec (at next_time) input app "k2")
    × (x.message.uid ≡ some "order-1")
ingest_repeated_example =
    ingest_repeated ksuid ksuid-IsTimed cfg codec resolver (at next_time) input once app "k2"
      (omega arith) (omega arith) refl found valid refl refl refl refl apart

-- ===== src/UseCases/Messages/Examples.antt =====
-- A table with two messages, of two days.
use huxio.Prelude.{
  ◌+◌, ◌≡◌, refl, true, none, some, List, [], ◌∷◌, String, str_eq, ℕ, if◌then◌else◌,
}
use huxio.Domain.Endpoint.{Application}
use huxio.Domain.Errors.{ok}
use huxio.Domain.Ids.{Ksuid, time_of}
use huxio.Store.Messages.{Message}
use huxio.UseCases.{Resolver, resolve}
use huxio.UseCases.Messages.{GetMessageInput, get_message, full_scan, get_message-full_scan, day}

-- A library that knows two texts.
abbrev ksuid : Ksuid
ksuid = record {
  random_with_time = λ entropy at. some "k1";
  parse = λ body.
      if str_eq body "k1" then some 7 else if str_eq body "k2" then some (day + 7) else none;
}

abbrev sent : String → ℕ → Message
sent id at = record {
  id = id;
  created_at = at;
  org_id = "org";
  app_id = "app";
  event_type = "order.paid";
  uid = none;
  channels = [];
  payload = [];
  payload_size = 0;
  expires_at = 90 + at;
  deleted_at = none;
}

abbrev table : List Message
table = sent "msg_k1" 7 ∷ sent "msg_k2" (day + 7) ∷ []

abbrev shop : Application
shop = record {
  id = "app";
  org_id = "org";
  uid = some "shop";
  name = "Shop";
  rate_limit = none;
  metadata = "{}";
  created_at = 0;
  updated_at = 0;
  deleted_at = none;
}

abbrev resolver : Resolver
resolver = record {
  snapshot = none;
  app_repo = some (shop ∷ []);
  by_id_works = true;
  by_uid_works = true;
}

abbrev input : GetMessageInput
input = record { org_id = "org"; app_id_or_uid = "shop"; msg_id = "msg_k2" }

known_first : time_of ksuid "msg_k1" ≡ some 7
unfolding time_of
known_first = refl

known_second : time_of ksuid "msg_k2" ≡ some (day + 7)
unfolding time_of
known_second = refl

found : get_message ksuid true resolver input table ≡ ok (sent "msg_k2" (day + 7))
unfolding get_message resolve time_of
found = refl

get_message-full_scan_example :
    get_message ksuid true resolver input table
    ≡ full_scan true "msg_k2" (resolve resolver "org" "shop").0 table
get_message-full_scan_example =
    get_message-full_scan ksuid true resolver input table (known_first, (known_second, tt))

-- ===== src/UseCases/Operational.antt =====
-- internal/application/usecases/operational_usecase.go: events about the deliveries themselves, sent as
-- messages of a reserved application. The JSON library is a parameter, and so is the printed time.
use huxio.Prelude.{
  ℕ, ◌≡◌, refl, Bool, true, false, not, ◌||◌, Option, none, some, List, [], ◌∷◌, String, str_eq,
  if◌then◌else◌,
}
use huxio.Prelude.Dict.{Dict, get, put}
use huxio.Utils.{is_blank}
use huxio.Domain.Endpoint.{Application}
use huxio.Domain.Errors.{
  Result, ok, err, AppError, ErrorKind, not_found, conflict, new_validation_error,
  new_internal_error,
}
use huxio.Domain.Ids.{Ksuid}
use huxio.UseCases.{Resolver, resolve}
use huxio.UseCases.Applications.{
  ApplicationTables, ApplicationAnswers, CreateApplicationInput, look_up, create_application,
}
use huxio.UseCases.Ingest.{
  IngestConfig, IngestInput, IngestResult, IngestAnswers, Codec, Tables, ingest,
}

abbrev pub operational_app_uid : String
operational_app_uid = "huxio.operational"

-- The cache of reserved applications of a process, and the tables.
pub record Operational : Type 0 where
  pub app_ids : Dict String
  pub apps : ApplicationTables
  pub stored : Tables

-- The details are JSON texts.
pub record OperationalEvent : Type 0 where
  pub kind : String
  pub org_id : String
  pub app_id : String
  pub endpoint_id : String
  pub msg_id : String
  pub detail : List (String × String)

-- What the calls of one event answer, and what other processes do between the look-up of the reserved
-- application and its creation.
pub record EmitAnswers : Type 0 where
  pub first : ApplicationAnswers
  pub others : ApplicationTables → ApplicationTables
  pub creation : ApplicationAnswers
  pub second : ApplicationAnswers
  pub timestamp : String
  pub ingest : IngestAnswers

-- `isNotFound` and `isConflict`
abbrev pub is_not_found : ErrorKind → Bool
is_not_found not_found = true
is_not_found _ = false

abbrev pub is_conflict : ErrorKind → Bool
is_conflict conflict = true
is_conflict _ = false

abbrev pub remember : Operational → String → String → Operational × Result String
remember s org_id id = (record s { app_ids = put s.app_ids org_id id }, ok id)

abbrev pub reserved_input : String → CreateApplicationInput
reserved_input org_id = record {
  org_id = org_id;
  name = "Operational webhooks";
  uid = some operational_app_uid;
  rate_limit = none;
  metadata = "";
}

-- After a creation: on a conflict another process has created it.
unfoldable pub after_creation :
    EmitAnswers
    → String
    → Operational
    → ApplicationTables × Result Application
    → Operational × Result String
after_creation a org_id s (apps, ok app) = remember (record s { apps = apps }) org_id app.id
after_creation a org_id s (apps, err e) =
    let s' : Operational = record s { apps = apps } in
    if not (is_conflict e.kind)
    then (s', err e)
    else elim (look_up a.second org_id operational_app_uid apps.rows) [
      | ok app ↦ remember s' org_id app.id
      | err f ↦ (s', err f)
    ]

-- After the first look-up.
unfoldable pub after_look_up :
    (String → Bool)
    → EmitAnswers
    → String
    → Operational
    → Result Application
    → Operational × Result String
unfolding after_creation
after_look_up json_valid a org_id s (ok app) = remember s org_id app.id
after_look_up json_valid a org_id s (err e) =
    if not (is_not_found e.kind)
    then (s, err e)
    else after_creation a org_id s
        (create_application json_valid a.creation (reserved_input org_id) (a.others s.apps))

-- `reservedApp`
unfoldable pub reserved_app :
    (String → Bool) → EmitAnswers → String → Operational → Operational × Result String
unfolding after_look_up
reserved_app json_valid a org_id s = elim (get s.app_ids org_id) [
  | some id ↦ (s, ok id)
  | none ↦
      after_look_up json_valid a org_id s (look_up a.first org_id operational_app_uid s.apps.rows)
]

abbrev pub put_set : Dict String → String → String → Dict String
put_set payload name value = if str_eq value "" then payload else put payload name value

put_details : Dict String → List (String × String) → Dict String
put_details payload [] = payload
put_details payload ((name, value) ∷ rest) = put_details (put payload name value) rest

-- The payload of an event: the details come last, and may replace what is there.
unfoldable pub payload_of : String → OperationalEvent → Dict String
unfolding put_details
payload_of timestamp e =
    put_details
      (put_set
        (put_set (put_set (put (put [] "type" e.kind) "timestamp" timestamp) "appId" e.app_id)
          "endpointId" e.endpoint_id)
        "msgId" e.msg_id)
      e.detail

abbrev pub without_result : Result IngestResult → Result (Unit {0})
without_result (ok x) = ok tt
without_result (err e) = err e

-- The message of an event, to the reserved application.
abbrev pub message_to : String → OperationalEvent → List ℕ → IngestInput
message_to app_id e encoded = record {
  org_id = e.org_id;
  app_id_or_uid = app_id;
  event_type = e.kind;
  event_id = none;
  payload = encoded;
  channels = [];
  retention_days = none;
}

module _ (k : Ksuid) (cfg : IngestConfig) (codec : Codec) (marshal : Dict String → Option (List ℕ))
    (json_valid : String → Bool) (resolver : List Application → Resolver) where
  -- The end of `Emit`, in the reserved application.
  unfoldable pub publish :
      EmitAnswers → OperationalEvent → Operational × Result String → Operational × Result (Unit {0})
  unfolding payload_of
  publish a e (s, err x) = (s, err x)
  publish a e (s, ok app_id) = elim (marshal (payload_of a.timestamp e)) [
    | none ↦ (s, err new_internal_error)
    | some encoded ↦
        let (stored, x) =
          ingest k cfg codec (resolver s.apps.rows) a.ingest (message_to app_id e encoded)
            s.stored in
        (record s { stored = stored }, without_result x)
  ]

  -- `Emit`
  unfoldable pub emit :
      EmitAnswers → OperationalEvent → Operational → Operational × Result (Unit {0})
  unfolding publish
  emit a e s =
      if is_blank e.org_id || is_blank e.kind
      then (s, err (new_validation_error "operational events need a tenant and a type"))
      else publish a e (reserved_app json_valid a e.org_id s)

  reserved_app-cached :
      (a : EmitAnswers) (org_id id : String) (s : Operational)
      → get s.app_ids org_id ≡ some id
      → reserved_app json_valid a org_id s ≡ (s, ok id)
  unfolding reserved_app
  reserved_app-cached a org_id id s cached = rw (reserved_app, cached) refl

  ingest-unresolved :
      (r : Resolver) (a : IngestAnswers) (i : IngestInput) (t : Tables) (x : AppError)
      → (resolve r i.org_id i.app_id_or_uid).0 ≡ err x
      → ingest k cfg codec r a i t ≡ (t, err x)
  unfolding ingest
  ingest-unresolved r a i t x gone = rw (ingest, gone) refl

  publish-unresolved :
      (a : EmitAnswers) (e : OperationalEvent) (s : Operational) (id : String) (x : AppError)
      (encoded : List ℕ)
      → marshal (payload_of a.timestamp e) ≡ some encoded
      → (resolve (resolver s.apps.rows) e.org_id id).0 ≡ err x
      → publish a e (s, ok id) ≡ (s, err x)
  unfolding publish
  publish-unresolved a e s id x encoded printed gone =
      rw
        (
          publish,
          printed,
          ingest-unresolved (resolver s.apps.rows) a.ingest (message_to id e encoded) s.stored x
              gone,
        )
        refl

  -- A process that has cached a reserved application which cannot be resolved any more, such as a
  -- deleted one, fails to emit and changes nothing, so that it fails the next time too.
  pub emit_stale :
      (a : EmitAnswers) (e : OperationalEvent) (s : Operational) (id : String) (x : AppError)
      (encoded : List ℕ)
      → (is_blank e.org_id || is_blank e.kind) ≡ false
      → get s.app_ids e.org_id ≡ some id
      → marshal (payload_of a.timestamp e) ≡ some encoded
      → (resolve (resolver s.apps.rows) e.org_id id).0 ≡ err x
      → emit a e s ≡ (s, err x)
  unfolding emit
  emit_stale a e s id x encoded named cached printed gone =
      rw (named, reserved_app-cached a e.org_id id s cached)
        (publish-unresolved a e s id x encoded printed gone)

-- ===== src/UseCases/Endpoints/Update.antt =====
-- endpoint_usecase.go: the creation and the update of an endpoint, and how it is switched off and on.
use huxio.Prelude.{
  Bool, true, false, not, Option, none, some, List, [], ◌∷◌, ◌++◌, String, if◌then◌else◌, ℤ, pos,
  ltb_ℤ, or_else,
}
use huxio.Prelude.Dict.{Dict}
use huxio.Utils.{fallback, nil_if_blank, unique_texts}
use huxio.Domain.Endpoint.{Endpoint, SecretType, hmac256, valid}
use huxio.Domain.Errors.{
  Result, ok, err, AppError, ◌>>=◌, ◌>>◌, fail_if, new_validation_error, new_internal_error,
}
use huxio.Store.Messages.{answers, fails, RepoError, not_found}
use huxio.Store.Endpoints
use huxio.UseCases.Endpoints.{
  EndpointTables, EndpointAnswers, Tools, look_up, choose_secret, seal_secret, finish, write_error,
  uid_error, validate_endpoint_url,
}
use huxio.UseCases.Endpoints.Headers.{Json, encode_custom_headers}

pub record CreateEndpointInput : Type 0 where
  pub org_id : String
  pub app_id : String
  pub url : String
  pub description : String
  pub uid : Option String
  pub version : Option ℤ
  pub rate_limit : Option ℤ
  pub event_types : List String
  pub channels : List String
  pub headers : Dict String
  pub secret : String
  pub secret_type : Option SecretType
  pub pool : String

abbrev pub not_positive : Option ℤ → Bool
not_positive none = false
not_positive (some n) = not (ltb_ℤ (pos 0) n)

abbrev pub max_ℤ : ℤ → ℤ → ℤ
max_ℤ a b = if ltb_ℤ a b then b else a

abbrev pub new_endpoint :
    EndpointAnswers → CreateEndpointInput → String → SecretType → String → Endpoint
new_endpoint a i headers secret_type sealed = record {
  id = a.new_id;
  app_id = i.app_id;
  org_id = i.org_id;
  uid = nil_if_blank (or_else i.uid "");
  url = i.url;
  description = i.description;
  version = max_ℤ (or_else i.version (pos 1)) (pos 1);
  rate_limit = i.rate_limit;
  event_types = unique_texts i.event_types;
  channels = unique_texts i.channels;
  headers = headers;
  secret = record { sealed = sealed; expires_at = none };
  secret_type = secret_type;
  old_secrets = [];
  pool = fallback i.pool "default";
  first_failure_at = none;
  disabled_at = none;
  created_at = a.now;
  updated_at = a.now;
  deleted_at = none;
}

-- The checks of `CreateEndpoint` in their order, up to the endpoint and its plaintext secret.
unfoldable pub prepare :
    Tools → Json → EndpointAnswers → CreateEndpointInput → Result (Endpoint × String)
prepare tools json a i = do
  validate_endpoint_url tools i.url
  headers ← encode_custom_headers json i.headers
  fail_if (not (valid (or_else i.secret_type hmac256)))
      (new_validation_error "unsupported secret type")
  fail_if (not_positive i.rate_limit) (new_validation_error "rateLimit must be positive")
  secret ← choose_secret a.random i.secret
  sealed ← seal_secret tools secret
  ok (new_endpoint a i headers (or_else i.secret_type hmac256) sealed, secret)

abbrev pub create_error : RepoError → AppError
create_error not_found = new_internal_error
create_error e = uid_error e

-- `CreateEndpoint`
unfoldable pub create_endpoint :
    Tools
    → Json
    → EndpointAnswers
    → CreateEndpointInput
    → EndpointTables
    → EndpointTables × Result (Endpoint × String)
create_endpoint tools json a i s = elim (prepare tools json a i) [
  | err e ↦ (s, err e)
  | ok made ↦
      finish s i.org_id create_error made (Endpoints.create_endpoint a.write_works made.0 s.rows)
]

pub record UpdateEndpointInput : Type 0 where
  pub url : Option String
  pub description : Option String
  pub uid : Option String
  pub version : Option ℤ
  pub rate_limit : Option ℤ
  pub event_types : Option (List String)
  pub channels : Option (List String)
  pub disabled : Option Bool
  pub clear_event_types : Bool
  pub clear_channels : Bool

abbrev pub check_url : Tools → Option String → Result (Unit {0})
check_url tools none = ok tt
check_url tools (some url) = validate_endpoint_url tools url

abbrev pub below_one : Option ℤ → Bool
below_one none = false
below_one (some n) = ltb_ℤ n (pos 1)

-- The two `switch` statements: clear, replace, or leave unchanged.
abbrev pub filter_of : Bool → Option (List String) → List String → List String
filter_of true given old = []
filter_of false none old = old
filter_of false (some names) old = unique_texts names

-- The fields that an update sets, after its checks.
unfoldable pub apply_update :
    Tools → EndpointAnswers → UpdateEndpointInput → Endpoint → Result Endpoint
apply_update tools a i ep = do
  check_url tools i.url
  fail_if (below_one i.version) (new_validation_error "version must be at least 1")
  fail_if (not_positive i.rate_limit) (new_validation_error "rateLimit must be positive")
  ok (record ep {
    url = or_else i.url ep.url;
    description = or_else i.description ep.description;
    uid = elim i.uid [ none ↦ ep.uid | some uid ↦ nil_if_blank uid ];
    version = or_else i.version ep.version;
    rate_limit = elim i.rate_limit [ none ↦ ep.rate_limit | some n ↦ some n ];
    event_types = filter_of i.clear_event_types i.event_types ep.event_types;
    channels = filter_of i.clear_channels i.channels ep.channels;
    updated_at = a.now;
  })

-- After the first write of `setDisabled`: switching on starts the failure window over.
unfoldable pub switched :
    EndpointAnswers → Endpoint → Bool → List Endpoint → List Endpoint × Result Endpoint
switched a ep true rows = (rows, ok (record ep { disabled_at = some a.now }))
switched a ep false rows = elim (Endpoints.set_first_failure a.clear_works a.now ep.id none rows) [
  | fails e ↦ (rows, err new_internal_error)
  | answers cleared ↦ (cleared, ok (record ep { disabled_at = none; first_failure_at = none }))
]

-- `setDisabled`
unfoldable pub switch_disabled :
    EndpointAnswers → Endpoint → Bool → List Endpoint → List Endpoint × Result Endpoint
unfolding switched
switch_disabled a ep disabled rows =
    elim (Endpoints.set_disabled a.disable_works a.now ep.id (if disabled then some a.now else none)
      rows) [ fails e ↦ (rows, err (write_error e)) | answers rows' ↦ switched a ep disabled rows' ]

-- The announcement at the end of a call that worked.
unfoldable pub announce :
    EndpointTables → List Endpoint × Result Endpoint → EndpointTables × Result Endpoint
announce s (rows, err e) = (record s { rows = rows }, err e)
announce s (rows, ok ep) =
    (record { rows = rows; announced = s.announced ++ ep.org_id ∷ [] }, ok ep)

-- `SetDisabled`
unfoldable pub set_disabled :
    EndpointAnswers → String → String → Bool → EndpointTables → EndpointTables × Result Endpoint
unfolding announce
set_disabled a app_id key disabled s = elim (look_up a app_id key s.rows) [
  | err e ↦ (s, err e)
  | ok ep ↦ announce s (switch_disabled a ep disabled s.rows)
]

-- The switch of an update, where it asks for one.
abbrev pub switch_asked :
    EndpointAnswers → Endpoint → Option Bool → List Endpoint → List Endpoint × Result Endpoint
switch_asked a ep none rows = (rows, ok ep)
switch_asked a ep (some disabled) rows = switch_disabled a ep disabled rows

-- `UpdateEndpoint`
unfoldable pub update_endpoint :
    Tools
    → EndpointAnswers
    → String
    → String
    → UpdateEndpointInput
    → EndpointTables
    → EndpointTables × Result Endpoint
unfolding announce
update_endpoint tools a app_id key i s = elim (look_up a app_id key s.rows) [
  | err e ↦ (s, err e)
  | ok ep ↦ elim (apply_update tools a i ep) [
    | err e ↦ (s, err e)
    | ok ep' ↦ elim (Endpoints.update_endpoint a.write_works ep' s.rows) [
      | fails e ↦ (s, err (uid_error e))
      | answers rows ↦ announce s (switch_asked a ep' i.disabled rows)
    ]
  ]
]

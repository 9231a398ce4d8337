-- ===== src/UseCases/Endpoints/Headers.antt =====
-- endpoint_usecase.go: the custom headers. The JSON encoding of a map is a parameter. Names are read
-- as bytes; `strings.ToLower` is written out for ASCII, and leaves other bytes alone.
use huxio.Prelude.{
  ℕ, ◌+◌, ◌-◌, ◌≡◌, refl, Bool, true, false, not, ◌&&◌, ◌||◌, Option, none, some, List, [], ◌∷◌,
  map, String, str_eq, leb, ◌==◌, if◌then◌else◌, any, keep, bytes, same_bytes, contains,
}
use huxio.Prelude.Dict.{Dict, put}
use huxio.Domain.Endpoint.{Endpoint}
use huxio.Domain.Errors.{Result, ok, err, ◌>>=◌, ◌>>◌, new_validation_error, new_internal_error}
use huxio.Store.Endpoints
use huxio.UseCases.Endpoints.{EndpointTables, EndpointAnswers, look_up, finish}
use Prim.Native.String

-- What the JSON library makes of a map, and of a stored text.
pub record Json : Type 0 where
  pub marshal : Dict String → Option String
  pub unmarshal : String → Option (Dict String)

abbrev pub is_upper : ℕ → Bool
is_upper c = leb b'A' c && leb c b'Z'

abbrev pub is_lower : ℕ → Bool
is_lower c = leb b'a' c && leb c b'z'

abbrev pub to_lower : ℕ → ℕ
to_lower c = if is_upper c then c + 32 else c

abbrev pub to_upper : ℕ → ℕ
to_upper c = if is_lower c then c - 32 else c

-- The bytes that net/textproto takes in a header name.
unfoldable pub is_token : ℕ → Bool
is_token c =
    is_upper c || is_lower c || (leb b'0' c && leb c b'9') || contains (bytes "!#$%&'*+-.^_`|~") c

-- The loop of the canonical form: a letter is upper case at the start and after a dash.
canonical_from : Bool → List ℕ → List ℕ
canonical_from upper [] = []
canonical_from upper (c ∷ cs) =
    (if upper then to_upper c else to_lower c) ∷ canonical_from (c == b'-') cs

-- `http.CanonicalHeaderKey`: a name with another byte comes back as it is.
unfoldable pub canonical_header_key : List ℕ → List ℕ
unfolding canonical_from is_token
canonical_header_key name =
    if any (λ c. not (is_token c)) name then name else canonical_from true name

abbrev pub forbidden : List ℕ
forbidden = bytes " \t\r\n:()<>@,;\\\"/[]?={}"

-- `isValidHeaderName`
unfoldable pub is_valid_header_name : List ℕ → Bool
unfolding canonical_header_key
is_valid_header_name [] = false
is_valid_header_name (c ∷ cs) =
    same_bytes (canonical_header_key (c ∷ cs)) (canonical_header_key (map to_lower (c ∷ cs)))
    && not (any (contains forbidden) (c ∷ cs))

abbrev pub reserved_headers : List String
reserved_headers =
    "webhook-id" ∷ "webhook-timestamp" ∷ "webhook-signature" ∷ "huxio-id" ∷ "huxio-timestamp"
    ∷ "huxio-signature" ∷ "content-type" ∷ "content-length" ∷ "host" ∷ "user-agent"
    ∷ "transfer-encoding" ∷ "connection" ∷ []

unfoldable pub is_reserved : List ℕ → Bool
is_reserved name = any (λ r. same_bytes (map to_lower name) (bytes r)) reserved_headers

check_names : Dict String → Result (Unit {0})
unfolding is_valid_header_name is_reserved
check_names [] = ok tt
check_names ((name, value) ∷ rest) =
    if not (is_valid_header_name (bytes name))
    then err (new_validation_error (String.◌++◌ "invalid header name: " name))
    else if is_reserved (bytes name)
    then err (new_validation_error (String.◌++◌ "header may not be overridden: " name))
    else check_names rest

-- `encodeCustomHeaders`; no headers are stored as nothing.
unfoldable pub encode_custom_headers : Json → Dict String → Result String
unfolding check_names
encode_custom_headers json [] = ok ""
encode_custom_headers json (h ∷ hs) = do
  check_names (h ∷ hs)
  elim (json.marshal (h ∷ hs)) [ none ↦ err new_internal_error | some text ↦ ok text ]

-- `GetHeaders`, of an endpoint that was found
unfoldable pub headers_of : Json → Endpoint → Result (Dict String)
headers_of json ep =
    if str_eq ep.headers ""
    then ok []
    else elim (json.unmarshal ep.headers) [ none ↦ err new_internal_error | some hs ↦ ok hs ]

unfoldable pub get_headers :
    Json → EndpointAnswers → String → String → EndpointTables → Result (Dict String)
unfolding headers_of
get_headers json a app_id key s = do ep ← look_up a app_id key s.rows; headers_of json ep

-- `delete(current, name)`
abbrev pub remove : Dict String → String → Dict String
remove hs name = keep (λ (h : String × String). not (str_eq h.0 name)) hs

-- The loop of the patch: an empty value removes a header.
unfoldable pub merge : Dict String → Dict String → Dict String
merge [] current = current
merge ((name, value) ∷ patch) current =
    merge patch (if str_eq value "" then remove current name else put current name value)

-- `PatchHeaders`, which reads the endpoint twice, on the same tables here. Every error of its write is
-- internal.
unfoldable pub patch_headers :
    Json
    → EndpointAnswers
    → String
    → String
    → Dict String
    → EndpointTables
    → EndpointTables × Result (Dict String)
unfolding get_headers
patch_headers json a app_id key patch s = elim (look_up a app_id key s.rows) [
  | err e ↦ (s, err e)
  | ok ep ↦ elim (get_headers json a app_id key s) [
    | err e ↦ (s, err e)
    | ok current ↦ elim (encode_custom_headers json (merge patch current)) [
      | err e ↦ (s, err e)
      | ok encoded ↦
          finish s ep.org_id (λ e. new_internal_error) (merge patch current)
            (Endpoints.update_endpoint a.write_works
              (record ep { headers = encoded; updated_at = a.now }) s.rows)
    ]
  ]
]

-- A name of token bytes only passes, whatever its case, unless it is a reserved one in any case.
accepts_mixed_case : is_valid_header_name (bytes "X-Trace-Id") ≡ true
unfolding is_valid_header_name is_token
accepts_mixed_case = refl

refuses_reserved : is_reserved (bytes "Webhook-Signature") ≡ true
unfolding is_reserved
refuses_reserved = refl

-- A control byte in a lower-case name is not noticed, although no request can carry such a header.
accepts_control_byte : is_valid_header_name (b'x' ∷ 1 ∷ []) ≡ true
unfolding is_valid_header_name is_token
accepts_control_byte = refl

refuses_control_byte_in_upper_case : is_valid_header_name (b'X' ∷ 1 ∷ []) ≡ false
unfolding is_valid_header_name is_token
refuses_control_byte_in_upper_case = refl

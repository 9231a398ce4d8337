-- ===== src/Domain/Signing.antt =====
-- internal/domain/signing/signer.go: the signature headers of a request.
-- The cryptography and base64 are Go's libraries: the record `Crypto` has their functions. A text's
-- bytes are its UTF-8 bytes, and a time is a number of seconds since 1970.
pub mod Decimal
mod Examples
use Prim.Native.String
use Prim.Native.String.{char_at}
use huxio.Prelude.{
  ℕ, zero, suc, ◌/◌, ◌%◌, Bool, true, false, Option, none, some, List, [], ◌∷◌, ◌++◌, String, ◌==◌,
  ltb, if◌then◌else◌, bytes, length, drop,
}
use huxio.Prelude.Dict.{Dict}
use huxio.Domain.Endpoint.{SecretType, hmac256, ed25519, unset, other}

pub data HeaderScheme : Type 0 where
  standard huxio_names : HeaderScheme
  unknown : String → HeaderScheme

-- `NewSigner`: an unknown scheme falls back to the standard names.
unfoldable pub new_signer : HeaderScheme → HeaderScheme
new_signer huxio_names = huxio_names
new_signer _ = standard

pub record HeaderNames : Type 0 where
  pub id : String
  pub timestamp : String
  pub signature : String

-- `HeaderNames`
unfoldable pub header_names : HeaderScheme → HeaderNames
header_names huxio_names = record {
  id = "huxio-id";
  timestamp = "huxio-timestamp";
  signature = "huxio-signature";
}
header_names _ = record {
  id = "webhook-id";
  timestamp = "webhook-timestamp";
  signature = "webhook-signature";
}

pub record Key : Type 0 where
  pub secret : List ℕ
  pub key_type : SecretType

pub record Crypto : Type 0 where
  -- base64.StdEncoding, the decoding with its error
  pub encode : List ℕ → String
  pub decode : List ℕ → Option (List ℕ)
  pub hmac_sha256 : List ℕ → List ℕ → List ℕ
  pub ed25519_sign : List ℕ → List ℕ → List ℕ
  pub from_seed : List ℕ → List ℕ

-- `strconv.FormatInt` of a number that is not negative: at most `fuel` more digits, which the number
-- itself is enough for.
decimal_from : ℕ → ℕ → String → String
decimal_from zero n rest = rest
decimal_from (suc fuel) n rest =
    let text = String.◌∷◌ (char_at "0123456789" (n % 10)) rest in
    let more = decimal_from fuel (n / 10) text in if ltb n 10 then text else more

unfoldable pub decimal : ℕ → String
unfolding decimal_from
decimal n = decimal_from (suc n) n ""

-- `SignedPayload`: "{msg_id}.{timestamp}.{payload}"
unfoldable pub signed_payload : String → ℕ → List ℕ → List ℕ
unfolding decimal
signed_payload msg_id unix payload = bytes msg_id ++ b'.' ∷ (bytes (decimal unix) ++ b'.' ∷ payload)

-- `strings.HasPrefix` on bytes
is_prefix : List ℕ → List ℕ → Bool
is_prefix [] bs = true
is_prefix (p ∷ ps) [] = false
is_prefix (p ∷ ps) (b ∷ bs) = let rest = is_prefix ps bs in if p == b then rest else false

-- `normalizeSecret`: "whsec_" is stripped.
unfoldable pub normalize_secret : List ℕ → List ℕ
unfolding is_prefix
normalize_secret secret = if is_prefix (bytes "whsec_") secret then drop 6 secret else secret

-- `Headers`, after the signing.
unfoldable pub headers_with : HeaderScheme → String → ℕ → Option String → Option (Dict String)
unfolding header_names decimal
headers_with scheme msg_id unix none = none
headers_with scheme msg_id unix (some signature) =
    let names = header_names scheme in
    some ((names.id, msg_id) ∷ (names.timestamp, decimal unix) ∷ (names.signature, signature) ∷ [])

module _ (c : Crypto) where
  -- An ed25519 key is a private key of 64 bytes or a seed of 32, in base64 or raw.
  private_key : List ℕ → Option (List ℕ)
  private_key decoded =
      if length decoded == 64
      then some decoded
      else if length decoded == 32
      then some (c.from_seed decoded)
      else none

  decoded_or : List ℕ → Option (List ℕ) → List ℕ
  decoded_or secret none = secret
  decoded_or secret (some d) = d

  unfoldable pub ed25519_private_key : List ℕ → Option (List ℕ)
  unfolding private_key decoded_or
  ed25519_private_key secret = private_key (decoded_or secret (c.decode secret))

  -- `signOne`, by the type of the key.
  sign_with : List ℕ → List ℕ → SecretType → Option String
  unfolding ed25519_private_key
  sign_with signed secret hmac256 =
      some (String.◌++◌ "v1," (c.encode (c.hmac_sha256 secret signed)))
  sign_with signed secret unset = some (String.◌++◌ "v1," (c.encode (c.hmac_sha256 secret signed)))
  sign_with signed secret ed25519 = elim (ed25519_private_key secret) [
    | none ↦ none
    | some private ↦ some (String.◌++◌ "v1a," (c.encode (c.ed25519_sign private signed)))
  ]
  sign_with signed secret (other name) = none

  unfoldable pub sign_one : List ℕ → Key → Option String
  unfolding sign_with normalize_secret
  sign_one signed key = sign_with signed (normalize_secret key.secret) key.key_type

  -- The loop of `Sign`, which stops at the first error.
  unfoldable pub sign_all : List ℕ → List Key → Option (List String)
  unfolding sign_one
  sign_all signed [] = some []
  sign_all signed (k ∷ ks) = elim (sign_one signed k) [
    | none ↦ none
    | some s ↦ elim (sign_all signed ks) [ none ↦ none | some rest ↦ some (s ∷ rest) ]
  ]

  -- `strings.Join` with a space
  join : List String → String
  join [] = ""
  join (s ∷ []) = s
  join (s ∷ t ∷ ts) = String.◌++◌ s (String.◌++◌ " " (join (t ∷ ts)))

  joined : Option (List String) → Option String
  unfolding join
  joined none = none
  joined (some ss) = some (join ss)

  unfoldable pub sign : String → ℕ → List ℕ → List Key → Option String
  unfolding joined sign_all signed_payload
  sign msg_id unix payload [] = none
  sign msg_id unix payload (k ∷ ks) =
      joined (sign_all (signed_payload msg_id unix payload) (k ∷ ks))

  unfoldable pub headers : HeaderScheme → String → ℕ → List ℕ → List Key → Option (Dict String)
  unfolding headers_with sign
  headers scheme msg_id unix payload keys =
      headers_with scheme msg_id unix (sign msg_id unix payload keys)

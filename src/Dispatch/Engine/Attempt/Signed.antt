-- ===== src/Dispatch/Engine/Attempt/Signed.antt =====
-- The signature headers of a request.
use mathlib.Core.Option.{some-injective}
use huxio.Prelude.{ℕ, ◌≡◌, refl, false, Option, none, some, List, [], String, str_eq}
use huxio.Prelude.Dict.{Dict, get, put, get-put, get-put_self}
use huxio.Domain.Signing.{
  Crypto, Key, HeaderScheme, standard, huxio_names, unknown, header_names, headers, headers_with,
  decimal, sign,
}
use huxio.Config.Snapshot.{Endpoint}
use huxio.Dispatch.Engine.Attempt.{build_headers, put_all, custom_headers}

-- The request has what was signed, under the three names of the scheme.
pub record CarriesSignature (scheme : HeaderScheme) (msg_id signature : String) (unix : ℕ)
    (m : Dict String) : Type 0 where
  pub same_id : get m (header_names scheme).id ≡ some msg_id
  pub same_timestamp : get m (header_names scheme).timestamp ≡ some (decimal unix)
  pub same_signature : get m (header_names scheme).signature ≡ some signature

-- Three names that differ.
put_three :
    (m : Dict String) (a b c u v w : String)
    → str_eq b a ≡ false
    → str_eq c a ≡ false
    → str_eq c b ≡ false
    → (get (put (put (put m a u) b v) c w) a ≡ some u)
      × (get (put (put (put m a u) b v) c w) b ≡ some v)
      × (get (put (put (put m a u) b v) c w) c ≡ some w)
put_three m a b c u v w ba ca cb = (
  rw (get-put (put (put m a u) b v) c w a, ca, get-put (put m a u) b v a, ba) (get-put_self m a u),
  rw (get-put (put (put m a u) b v) c w b, cb) (get-put_self (put m a u) b v),
  get-put_self (put (put m a u) b v) c w,
)

put_names-CarriesSignature :
    (scheme : HeaderScheme) (msg_id signature : String) (unix : ℕ) (m : Dict String)
    → let names = header_names scheme in
      CarriesSignature scheme msg_id signature unix
        (put (put (put m names.id msg_id) names.timestamp (decimal unix)) names.signature signature)
unfolding header_names
put_names-CarriesSignature standard msg_id signature unix m =
    let h =
      put_three m "webhook-id" "webhook-timestamp" "webhook-signature" msg_id (decimal unix)
        signature refl refl refl in
    record { same_id = h.0; same_timestamp = h.1; same_signature = h.2 }
put_names-CarriesSignature huxio_names msg_id signature unix m =
    let h =
      put_three m "huxio-id" "huxio-timestamp" "huxio-signature" msg_id (decimal unix) signature
        refl refl refl in
    record { same_id = h.0; same_timestamp = h.1; same_signature = h.2 }
put_names-CarriesSignature (unknown name) msg_id signature unix m =
    let h =
      put_three m "webhook-id" "webhook-timestamp" "webhook-signature" msg_id (decimal unix)
        signature refl refl refl in
    record { same_id = h.0; same_timestamp = h.1; same_signature = h.2 }

headers_with-CarriesSignature :
    (scheme : HeaderScheme) (msg_id : String) (signature : Option String) (unix : ℕ) (ep : Endpoint)
    (signed : Dict String)
    → headers_with scheme msg_id unix signature ≡ some signed
    → (text : String) × (signature ≡ some text)
      × CarriesSignature scheme msg_id text unix (build_headers signed ep)
unfolding build_headers put_all headers_with
headers_with-CarriesSignature scheme msg_id none unix ep signed h = absurd (cc)
headers_with-CarriesSignature scheme msg_id (some text) unix ep signed h = (
  text,
  refl,
  rw (← some-injective _ signed h)
      (put_names-CarriesSignature scheme msg_id text unix (custom_headers ep.custom_headers [])),
)

-- A custom header never replaces a signature header: whatever headers the endpoint has, under
-- whatever names, the request carries the message's id, the time and the signature over its payload
-- under the three names of the scheme.
pub build_headers-CarriesSignature :
    (c : Crypto) (scheme : HeaderScheme) (msg_id : String) (unix : ℕ) (payload : List ℕ)
    (keys : List Key) (ep : Endpoint) (signed : Dict String)
    → headers c scheme msg_id unix payload keys ≡ some signed
    → (text : String) × (sign c msg_id unix payload keys ≡ some text)
      × CarriesSignature scheme msg_id text unix (build_headers signed ep)
unfolding headers
build_headers-CarriesSignature c scheme msg_id unix payload keys ep signed h =
    headers_with-CarriesSignature scheme msg_id (sign c msg_id unix payload keys) unix ep signed h

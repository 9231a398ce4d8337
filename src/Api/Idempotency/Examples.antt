-- ===== src/Api/Idempotency/Examples.antt =====
-- A message that is posted twice.
use huxio.Prelude.{ℕ, ◌+◌, ◌*◌, ◌≡◌, refl, true, List, [], ◌∷◌, String, arith, pos}
use huxio.Domain.Errors.{new_conflict_error}
use huxio.Dispatch.Breaker.{second}
use huxio.Store.Idempotency.{claim_key}
use huxio.Store.Idempotency.Exclusive.{Statement, claims, purges, execute_all}
use huxio.Api.Idempotency.{
  IdempotencyOptions, idempotency_options, Around, Request, Reply, responds, refuses, key_text,
  idempotency,
}
use huxio.Api.Idempotency.Once.{IsKeyed, second-refused, repeated}

abbrev opts : IdempotencyOptions
opts = record { lock_ttl = 30 * second; response_ttl = 43_200 * second }

defaults : idempotency_options (pos 0) (pos 0) ≡ opts
unfolding idempotency_options
defaults = refl

-- Any hash does here: this one keeps the text.
abbrev hash : String → String
hash text = text

abbrev post : Request
post = record { org_id = "org"; method = "POST"; path = "/messages"; client_key = "order-1" }

-- The handler counts the messages.
abbrev handler : ℕ → ℕ × Reply
handler n = (n + 1, responds 202 (123 ∷ 125 ∷ []))

-- The calls of a request, with another client's request and a purge in the middle of it.
abbrev others : ℕ → List Statement
others at = claims at "other" (30 * second) ∷ purges at ∷ []

abbrev from_to : ℕ → ℕ → Around
from_to begins_at ends_at = record {
  begins_at = begins_at;
  ends_at = ends_at;
  claims = true;
  reads = true;
  releases = true;
  stores = true;
  meanwhile = execute_all (others begins_at);
  while_handled = execute_all (others ends_at);
}

abbrev first : Around
first = from_to (100 * second) (101 * second)

keyed : (begins_at ends_at : ℕ) → IsKeyed post (from_to begins_at ends_at)
keyed begins_at ends_at = record { posts = refl; keyed = refl; claims = refl; reads = refl }

first_claims : (claim_key (100 * second) (hash (key_text post)) opts.lock_ttl []).1 ≡ true
unfolding claim_key
first_claims = refl

second-refused_example :
    idempotency hash opts (from_to (100 * second + 1) (101 * second)) post handler 1 (
      execute_all
        (others (100 * second))
        (claim_key (100 * second) (hash (key_text post)) opts.lock_ttl []).0)
    ≡ (
      1,
      execute_all (others (100 * second + 1)) (
          execute_all
            (others (100 * second))
            (claim_key (100 * second) (hash (key_text post)) opts.lock_ttl []).0),
      refuses (new_conflict_error "a request with this Idempotency-Key is already in progress"),
    )
second-refused_example =
    second-refused hash opts post handler (from_to (100 * second + 1) (101 * second)) 1 []
      (100 * second) (others (100 * second)) (others (100 * second + 1))
      (keyed (100 * second + 1) (101 * second)) refl first_claims (omega arith)
      (omega arith, (omega arith, tt)) (omega arith, (omega arith, tt))

repeated_example :
    let (after, rows', reply) = idempotency hash opts first post handler 0 [] in
    (after ≡ 1)
    × (reply ≡ responds 202 (123 ∷ 125 ∷ []))
    × (idempotency hash opts
          (from_to (200 * second) (201 * second))
          post
          handler
          1
          (execute_all (others (150 * second)) rows')
        ≡ (
          1,
          execute_all (others (200 * second)) (execute_all (others (150 * second)) rows'),
          responds 202 (123 ∷ 125 ∷ []),
        ))
repeated_example =
    repeated hash opts post handler first (from_to (200 * second) (201 * second)) 0 1 1 [] 202
      (123 ∷ 125 ∷ []) (others (101 * second)) (others (150 * second)) (others (200 * second))
      (keyed (100 * second) (101 * second)) (keyed (200 * second) (201 * second)) refl refl refl
      first_claims refl refl (omega arith) (omega arith, (omega arith, tt))
      (omega arith, (omega arith, tt)) (omega arith, (omega arith, tt))

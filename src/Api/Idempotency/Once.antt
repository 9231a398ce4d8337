-- ===== src/Api/Idempotency/Once.antt =====
-- A repeated POST is not handled a second time.
use huxio.Prelude.{ℕ, ◌+◌, ◌≤◌, ◌≡◌, refl, true, false, some, List, String, str_eq, leb, arith, All}
use huxio.Domain.Errors.{new_conflict_error}
use huxio.Store.Idempotency.{
  Keys, IdempotencyRecord, started, claim_key, find_key, begin, complete_key,
}
use huxio.Store.Idempotency.Exclusive.{
  Statement, Spares, execute_all, find_key-execute_all, find_key-won, begin-existing, completed,
  find_key-completed,
}
use huxio.Api.Idempotency.{
  IdempotencyOptions, Around, Request, Reply, responds, refuses, key_text, replay, begun, finish,
  idempotency,
}

-- The request carries a key, and its calls to the table work.
pub record IsKeyed (r : Request) (t : Around) : Type 0 where
  pub posts : str_eq r.method "POST" ≡ true
  pub keyed : str_eq r.client_key "" ≡ false
  pub claims : t.claims ≡ true
  pub reads : t.reads ≡ true

module _ {S : Type 0} (hash : String → String) (opts : IdempotencyOptions) (r : Request)
    (next : S → S × Reply) where
  -- A request whose key is taken by a record that has not expired is not handled.
  pub idempotency-existing :
      (t : Around) (s : S) (rows : Keys) (old : IdempotencyRecord) (between : List Statement)
      → IsKeyed r t
      → t.meanwhile ≡ execute_all between
      → find_key (hash (key_text r)) rows ≡ some old
      → t.begins_at ≤ old.expires_at
      → All (Spares (hash (key_text r)) old.expires_at) between
      → idempotency hash opts t r next s rows ≡ (s, execute_all between rows, replay old)
  unfolding idempotency begun
  idempotency-existing t s rows old between k same h le spared =
      rw
        (
          k.posts,
          k.keyed,
          k.claims,
          k.reads,
          same,
          begin-existing t.begins_at (hash (key_text r)) opts.lock_ttl between rows old h le spared,
        )
        refl

  -- If a first request begins, and a second one of the same key is made while the first is handled and
  -- its lock lasts, the second is not handled but refused. Between them, and while the second runs, other
  -- requests may run any statements but those that complete or abort this key, and but claims or purges
  -- that are dated after the end of the lock.
  pub second-refused :
      (t : Around) (s : S) (rows : Keys) (now : ℕ) (before between : List Statement)
      → IsKeyed r t
      → t.meanwhile ≡ execute_all between
      → (claim_key now (hash (key_text r)) opts.lock_ttl rows).1 ≡ true
      → t.begins_at ≤ now + opts.lock_ttl
      → All (Spares (hash (key_text r)) (now + opts.lock_ttl)) before
      → All (Spares (hash (key_text r)) (now + opts.lock_ttl)) between
      → idempotency hash opts t r next s
          (execute_all before (claim_key now (hash (key_text r)) opts.lock_ttl rows).0)
        ≡ (
          s,
          execute_all between
              (execute_all before (claim_key now (hash (key_text r)) opts.lock_ttl rows).0),
          refuses (new_conflict_error "a request with this Idempotency-Key is already in progress"),
        )
  unfolding replay
  second-refused t s rows now before between k same first le b1 b2 =
      let key = hash (key_text r) in
      let row = started now key opts.lock_ttl in
      idempotency-existing t s (execute_all before (claim_key now key opts.lock_ttl rows).0) row
        between k same
        (find_key-execute_all before (claim_key now key opts.lock_ttl rows).0 key row
          (find_key-won now key opts.lock_ttl rows first) b1)
        le b2

  -- After a first request whose row was there at its end, and whose response of `status` below 500 was
  -- stored, a repetition within the response's time is answered with that response and not handled.
  pub second-replayed :
      (t : Around) (s : S) (rows : Keys) (first : IdempotencyRecord) (now status : ℕ)
      (body : List ℕ) (before between : List Statement)
      → IsKeyed r t
      → t.meanwhile ≡ execute_all between
      → find_key (hash (key_text r)) rows ≡ some first
      → t.begins_at ≤ now + opts.response_ttl
      → All (Spares (hash (key_text r)) (now + opts.response_ttl)) before
      → All (Spares (hash (key_text r)) (now + opts.response_ttl)) between
      → idempotency hash opts t r next s (
          execute_all before
            (complete_key now (hash (key_text r)) status body opts.response_ttl rows))
        ≡ (
          s,
          execute_all between (
              execute_all before
                (complete_key now (hash (key_text r)) status body opts.response_ttl rows)),
          responds status body,
        )
  unfolding replay
  second-replayed t s rows first now status body before between k same there le b1 b2 =
      let key = hash (key_text r) in
      let row = completed now key status body opts.response_ttl first in
      idempotency-existing t s
        (execute_all before (complete_key now key status body opts.response_ttl rows)) row between k
        same
        (find_key-execute_all before (complete_key now key status body opts.response_ttl rows) key
          row (find_key-completed now key status body opts.response_ttl rows first there) b1)
        le b2

  -- The first request of its key: the handler runs, and its response is stored.
  first-stored :
      (t : Around) (s s' : S) (rows : Keys) (status : ℕ) (body : List ℕ) (during : List Statement)
      → IsKeyed r t
      → t.stores ≡ true
      → t.while_handled ≡ execute_all during
      → (claim_key t.begins_at (hash (key_text r)) opts.lock_ttl rows).1 ≡ true
      → next s ≡ (s', responds status body)
      → leb 500 status ≡ false
      → let key = hash (key_text r) in
        idempotency hash opts t r next s rows ≡ (
          s',
          complete_key t.ends_at key status body opts.response_ttl
              (execute_all during (claim_key t.begins_at key opts.lock_ttl rows).0),
          responds status body,
        )
  unfolding idempotency begun begin finish
  first-stored t s s' rows status body during k stores same first runs fine = ground (arith, k)

  -- A request that wins its key is handled, and its response, below 500 and stored, goes to the client.
  -- A repetition within the response's time is not handled, and gets the same response, if the first
  -- was answered while its lock lasted and others left the key's row alone.
  pub repeated :
      (t t2 : Around) (s s' s2 : S) (rows : Keys) (status : ℕ) (body : List ℕ)
      (during before between : List Statement)
      → IsKeyed r t
      → IsKeyed r t2
      → t.stores ≡ true
      → t.while_handled ≡ execute_all during
      → t2.meanwhile ≡ execute_all between
      → (claim_key t.begins_at (hash (key_text r)) opts.lock_ttl rows).1 ≡ true
      → next s ≡ (s', responds status body)
      → leb 500 status ≡ false
      → t2.begins_at ≤ t.ends_at + opts.response_ttl
      → All (Spares (hash (key_text r)) (t.begins_at + opts.lock_ttl)) during
      → All (Spares (hash (key_text r)) (t.ends_at + opts.response_ttl)) before
      → All (Spares (hash (key_text r)) (t.ends_at + opts.response_ttl)) between
      → let (after, rows', reply) = idempotency hash opts t r next s rows in
        (after ≡ s')
        × (reply ≡ responds status body)
        × (idempotency hash opts t2 r next s2 (execute_all before rows')
            ≡ (s2, execute_all between (execute_all before rows'), responds status body))
  repeated t t2 s s' s2 rows status body during before between k k2 stores same same2 first runs
        fine le b0 b1 b2 =
      let key = hash (key_text r) in
      let row = started t.begins_at key opts.lock_ttl in
      rw (first-stored t s s' rows status body during k stores same first runs fine) (
        refl,
        refl,
        second-replayed t2 s2 (execute_all during (claim_key t.begins_at key opts.lock_ttl rows).0)
            row t.ends_at status body before between k2 same2
            (find_key-execute_all during (claim_key t.begins_at key opts.lock_ttl rows).0 key row
              (find_key-won t.begins_at key opts.lock_ttl rows first) b0)
            le b1 b2,
      )

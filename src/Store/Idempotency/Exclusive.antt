-- ===== src/Store/Idempotency/Exclusive.antt =====
-- While a request's row has not expired, it is the only one of its key that is handled.
use huxio.Prelude.{
  ℕ, ◌+◌, ◌≤◌, ◌≡◌, refl, Bool, true, false, some, List, [], ◌∷◌, String, str_eq, eq_iff, arith,
  keep, All,
}
use huxio.Store.Messages.{answers}
use huxio.Store.Idempotency.{
  IdempotencyRecord, Keys, complete, started, claim_key, find_key, begin, existing, complete_key,
  abort_key, purge_expired,
}

-- What other requests and the housekeeping do to the table.
pub data Statement : Type 0 where
  claims : ℕ → String → ℕ → Statement
  completes : ℕ → String → ℕ → List ℕ → ℕ → Statement
  aborts : String → Statement
  purges : ℕ → Statement

unfoldable pub execute : Statement → Keys → Keys
execute (claims now key ttl) rows = (claim_key now key ttl rows).0
execute (completes now key code response ttl) rows = complete_key now key code response ttl rows
execute (aborts key) rows = abort_key key rows
execute (purges now) rows = purge_expired now rows

unfoldable pub execute_all : List Statement → Keys → Keys
unfolding execute
execute_all [] rows = rows
execute_all (s ∷ ss) rows = execute_all ss (execute s rows)

-- A statement that leaves the key's row alone until a time: it is about another key, or is a claim or
-- a purge that comes no later.
abbrev pub Spares : String → ℕ → Statement → Type 0
Spares key until (claims now k ttl) = now ≤ until
Spares key until (completes now k code response ttl) = str_eq k key ≡ false
Spares key until (aborts k) = str_eq k key ≡ false
Spares key until (purges now) = now ≤ until

find_key-claim_key :
    (now : ℕ) (k : String) (ttl : ℕ) (rows : Keys) (key : String) (r : IdempotencyRecord)
    → find_key key rows ≡ some r
    → now ≤ r.expires_at
    → find_key key (claim_key now k ttl rows).0 ≡ some r
unfolding find_key claim_key
find_key-claim_key now k ttl [] key r h le = absurd (cc)
find_key-claim_key now k ttl (x ∷ rows) key r h le =
    ground (
      arith,
      find_key-claim_key now k ttl rows key r,
      eq_iff x.key key,
      eq_iff x.key k,
      eq_iff k key,
    )

find_key-complete_key :
    (now : ℕ) (k : String) (code : ℕ) (response : List ℕ) (ttl : ℕ) (rows : Keys) (key : String)
    (r : IdempotencyRecord)
    → find_key key rows ≡ some r
    → str_eq k key ≡ false
    → find_key key (complete_key now k code response ttl rows) ≡ some r
unfolding find_key complete_key
find_key-complete_key now k code response ttl [] key r h ne = absurd (cc)
find_key-complete_key now k code response ttl (x ∷ rows) key r h ne = ground (
  arith,
  find_key-complete_key now k code response ttl rows key r,
  eq_iff x.key key,
  eq_iff x.key k,
  eq_iff k key,
)

-- A row that a filter keeps is still the first of its key.
find_key-keep :
    (p : IdempotencyRecord → Bool) (rows : Keys) (key : String) (r : IdempotencyRecord)
    → find_key key rows ≡ some r
    → p r ≡ true
    → find_key key (keep p rows) ≡ some r
unfolding find_key
find_key-keep p [] key r h e = absurd (cc)
find_key-keep p (x ∷ rows) key r h e = ground (arith, find_key-keep p rows key r, eq_iff x.key key)

find_key-key :
    (rows : Keys) (key : String) (r : IdempotencyRecord) → find_key key rows ≡ some r → r.key ≡ key
unfolding find_key
find_key-key [] key r h = absurd (cc)
find_key-key (x ∷ rows) key r h = ground (arith, find_key-key rows key r, eq_iff x.key key)

pub find_key-execute :
    (s : Statement) (rows : Keys) (key : String) (r : IdempotencyRecord)
    → find_key key rows ≡ some r
    → Spares key r.expires_at s
    → find_key key (execute s rows) ≡ some r
unfolding execute abort_key purge_expired
find_key-execute (claims now k ttl) rows key r h spared =
    find_key-claim_key now k ttl rows key r h spared
find_key-execute (completes now k code response ttl) rows key r h spared =
    find_key-complete_key now k code response ttl rows key r h spared
find_key-execute (aborts k) rows key r h spared =
    find_key-keep _ rows key r h
      (ground (arith, find_key-key rows key r h, eq_iff k key, eq_iff r.key k))
find_key-execute (purges now) rows key r h spared = find_key-keep _ rows key r h (ground arith)

pub find_key-execute_all :
    (ss : List Statement) (rows : Keys) (key : String) (r : IdempotencyRecord)
    → find_key key rows ≡ some r
    → All (Spares key r.expires_at) ss
    → find_key key (execute_all ss rows) ≡ some r
unfolding execute_all
find_key-execute_all [] rows key r h spared = h
find_key-execute_all (s ∷ ss) rows key r h spared =
    find_key-execute_all ss (execute s rows) key r (find_key-execute s rows key r h spared.0)
      spared.1

-- The winner's row.
pub find_key-won :
    (now : ℕ) (key : String) (ttl : ℕ) (rows : Keys)
    → (claim_key now key ttl rows).1 ≡ true
    → find_key key (claim_key now key ttl rows).0 ≡ some (started now key ttl)
unfolding claim_key find_key
find_key-won now key ttl [] h = ground (arith, eq_iff key key)
find_key-won now key ttl (x ∷ rows) h =
    ground (arith, find_key-won now key ttl rows, eq_iff x.key key, eq_iff key key)

-- A claim of a key whose row has not expired is lost, and changes nothing.
claim_key-lost :
    (now : ℕ) (key : String) (ttl : ℕ) (rows : Keys) (r : IdempotencyRecord)
    → find_key key rows ≡ some r
    → now ≤ r.expires_at
    → claim_key now key ttl rows ≡ (rows, false)
unfolding claim_key find_key
claim_key-lost now key ttl [] r h le = absurd (cc)
claim_key-lost now key ttl (x ∷ rows) r h le =
    ground (arith, claim_key-lost now key ttl rows r, eq_iff x.key key)

-- While the row of a request that has begun lasts, another request of the key finds it, whatever other
-- statements run.
pub begin-existing :
    (now : ℕ) (key : String) (ttl : ℕ) (between : List Statement) (rows : Keys)
    (r : IdempotencyRecord)
    → find_key key rows ≡ some r
    → now ≤ r.expires_at
    → All (Spares key r.expires_at) between
    → begin true true (execute_all between) now key ttl rows
      ≡ (execute_all between rows, answers (existing r))
unfolding begin
begin-existing now key ttl between rows r h le spared =
    rw (claim_key-lost now key ttl rows r h le, find_key-execute_all between rows key r h spared)
      refl

-- The row that `Complete` leaves.
abbrev pub completed : ℕ → String → ℕ → List ℕ → ℕ → IdempotencyRecord → IdempotencyRecord
completed now key code response ttl r = record r {
  status = complete;
  status_code = some code;
  response = response;
  expires_at = now + ttl;
}

pub find_key-completed :
    (now : ℕ) (key : String) (code : ℕ) (response : List ℕ) (ttl : ℕ) (rows : Keys)
    (r : IdempotencyRecord)
    → find_key key rows ≡ some r
    → find_key key (complete_key now key code response ttl rows)
      ≡ some (completed now key code response ttl r)
unfolding find_key complete_key
find_key-completed now key code response ttl [] r h = absurd (cc)
find_key-completed now key code response ttl (x ∷ rows) r h =
    ground (arith, find_key-completed now key code response ttl rows r, eq_iff x.key key)

-- ===== src/Store/Leases/Named.antt =====
-- `AcquireNamedLease` and `ReleaseNamedLease`: a singleton lock for jobs that run once in a cluster.
use huxio.Prelude.{
  ℕ, ◌+◌, ◌≡◌, Bool, true, false, not, ◌&&◌, ◌||◌, Option, none, some, List, [], ◌∷◌, String,
  str_eq, eq_iff, arith, ltb, if◌then◌else◌, keep,
}

pub record NamedLease : Type 0 where
  pub name : String
  pub owner_id : String
  pub heartbeat_at : ℕ

-- INSERT … ON CONFLICT DO UPDATE … WHERE; the name is the table's key.
unfoldable pub acquire_named_lease :
    ℕ → String → String → ℕ → List NamedLease → List NamedLease × Bool
acquire_named_lease now name me ttl [] =
    (record { name = name; owner_id = me; heartbeat_at = now } ∷ [], true)
acquire_named_lease now name me ttl (l ∷ ls) =
    let (rest, got) = acquire_named_lease now name me ttl ls in
    if str_eq l.name name
    then if str_eq l.owner_id me || ltb (l.heartbeat_at + ttl) now
      then (record l { owner_id = me; heartbeat_at = now } ∷ ls, true)
      else (l ∷ ls, false)
    else (l ∷ rest, got)

unfoldable pub release_named_lease : String → String → List NamedLease → List NamedLease
release_named_lease name me ls = keep (λ l. not (str_eq l.name name && str_eq l.owner_id me)) ls

-- The lock as the database holds it: its owner and last heartbeat.
unfoldable pub find_lease : String → List NamedLease → Option NamedLease
find_lease name [] = none
find_lease name (l ∷ ls) = if str_eq l.name name then some l else find_lease name ls

-- An attempt succeeds unless another owner's heartbeat is within the ttl. After it the table holds
-- the lock for the caller, or, if it failed, as it was before.
pub acquire-exclusive :
    (now : ℕ) (name me : String) (ttl : ℕ) (ls : List NamedLease) (l : NamedLease)
    → find_lease name ls ≡ some l
    → let (after, got) = acquire_named_lease now name me ttl ls in
      (got ≡ (str_eq l.owner_id me || ltb (l.heartbeat_at + ttl) now))
      × (find_lease name after
          ≡ some (if got then record l { owner_id = me; heartbeat_at = now } else l))
unfolding acquire_named_lease find_lease
acquire-exclusive now name me ttl [] l h = absurd (cc)
acquire-exclusive now name me ttl (r ∷ rs) l h =
    ground (arith, acquire-exclusive now name me ttl rs l, eq_iff r.name name)

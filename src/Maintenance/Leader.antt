-- ===== src/Maintenance/Leader.antt =====
-- The lease of the maintenance keeps all loops but one from the tables.
use huxio.Prelude.{
  ℕ, ◌+◌, ◌≤◌, ◌≡◌, refl, ap, ◌∙◌, Bool, true, false, not, some, List, [], ◌∷◌, String, str_eq,
  arith, if◌then◌else◌, All,
}
use huxio.Prelude.Calendar.{Date}
use huxio.Store.Leases.Named.{
  NamedLease, find_lease, acquire_named_lease, release_named_lease, acquire-exclusive,
}
use huxio.Maintenance.{
  Faults, Loop, Cluster, Event, rescue_tick, partition_tick, stats_tick, done, lease_name,
  acquire_leadership, release_leadership, led, step,
}

-- A turn of some loop.
pub record Turn : Type 0 where
  pub faults : Faults
  pub now : ℕ
  pub today : Date
  pub event : Event
  pub loop : Loop

unfoldable pub take_turn : Turn → Cluster → Cluster
take_turn t c = (step t.faults t.now t.today t.event t.loop c).1

unfoldable pub take_turns : List Turn → Cluster → Cluster
take_turns [] c = c
take_turns (t ∷ ts) c = take_turns ts (take_turn t c)

-- The lease is held by an owner, and the tables of the housekeeping are those of a cluster.
pub record IsKept (owner : String) (heartbeat : ℕ) (before after : Cluster) : Type 0 where
  pub lease : NamedLease
  pub held : find_lease lease_name after.leases ≡ some lease
  pub owned : lease.owner_id ≡ owner
  pub beats : lease.heartbeat_at ≡ heartbeat
  pub queue : after.queue ≡ before.queue
  pub workers : after.workers ≡ before.workers
  pub keys : after.keys ≡ before.keys
  pub catalog : after.catalog ≡ before.catalog

-- A turn of another owner's loop while the heartbeat is within its time to live.
abbrev pub IsOther : String → ℕ → Turn → Type 0
IsOther owner heartbeat t =
    (str_eq owner t.loop.opts.owner_id ≡ false) × (t.now ≤ heartbeat + t.loop.opts.lease_ttl)

find_lease-release :
    (name me : String) (ls : List NamedLease) (l : NamedLease)
    → find_lease name ls ≡ some l
    → str_eq l.owner_id me ≡ false
    → find_lease name (release_named_lease name me ls) ≡ some l
unfolding find_lease release_named_lease
find_lease-release name me [] l h other = absurd (cc)
find_lease-release name me (r ∷ rs) l h other = ground (arith, find_lease-release name me rs l)

module _ (owner : String) (heartbeat : ℕ) (before : Cluster) where
  denied :
      (now : ℕ) (me : String) (ttl : ℕ) (c : Cluster) (k : IsKept owner heartbeat before c)
      → str_eq owner me ≡ false
      → now ≤ heartbeat + ttl
      → let (leases, got) = acquire_named_lease now lease_name me ttl c.leases in
        (got ≡ false) × (find_lease lease_name leases ≡ some k.lease)
  denied now me ttl c k other fresh =
      let (answer, after) = acquire-exclusive now lease_name me ttl c.leases k.lease k.held in
      let foreign : str_eq k.lease.owner_id me ≡ false = ap (λ o. str_eq o me) k.owned ∙ other in
      let refused : (acquire_named_lease now lease_name me ttl c.leases).1 ≡ false =
        ground (arith) in
      (refused, ground arith)

  leased :
      (c : Cluster) (k : IsKept owner heartbeat before c) (ls : List NamedLease)
      → find_lease lease_name ls ≡ some k.lease
      → IsKept owner heartbeat before (record c { leases = ls })
  leased c k ls same = record {
    lease = k.lease;
    held = same;
    owned = k.owned;
    beats = k.beats;
    queue = k.queue;
    workers = k.workers;
    keys = k.keys;
    catalog = k.catalog;
  }

  acquire-IsKept :
      (f : Faults) (now : ℕ) (l : Loop) (c : Cluster)
      → IsKept owner heartbeat before c
      → str_eq owner l.opts.owner_id ≡ false
      → now ≤ heartbeat + l.opts.lease_ttl
      → let (l', c', led) = acquire_leadership f now l c in
        IsKept owner heartbeat before c' × (led ≡ false)
  unfolding acquire_leadership
  acquire-IsKept f now l c k other fresh = cases f.acquires
    where
      me : String
      me = l.opts.owner_id

      tried : List NamedLease × Bool
      tried = acquire_named_lease now lease_name me l.opts.lease_ttl c.leases

      cases :
          (b : Bool)
          → let r : Loop × Cluster × Bool =
              if not b
              then (record l { leader = false }, c, false)
              else (record l { leader = tried.1 }, record c { leases = tried.0 }, tried.1) in
            IsKept owner heartbeat before r.1 × (r.2 ≡ false)
      cases false = (k, refl)
      cases true =
          let (refused, same) = denied now me l.opts.lease_ttl c k other fresh in
          (leased c k tried.0 same, refused)

  release-IsKept :
      (f : Faults) (l : Loop) (c : Cluster)
      → IsKept owner heartbeat before c
      → str_eq owner l.opts.owner_id ≡ false
      → IsKept owner heartbeat before (release_leadership f l c).1
  unfolding release_leadership
  release-IsKept f l c k other = cases l.leader f.releases
    where
      freed : List NamedLease
      freed = release_named_lease lease_name l.opts.owner_id c.leases

      foreign : str_eq k.lease.owner_id l.opts.owner_id ≡ false
      foreign = ap (λ o. str_eq o l.opts.owner_id) k.owned ∙ other

      cases :
          (b works : Bool)
          → let r : Loop × Cluster = if not b then (l, c) else (
            record l { leader = false },
            if works then record c { leases = freed } else c,
          ) in
            IsKept owner heartbeat before r.1
      cases false _ = k
      cases true false = k
      cases true true =
          leased c k freed
            (find_lease-release lease_name l.opts.owner_id c.leases k.lease k.held foreign)

  idle :
      (f : Faults) (now : ℕ) (today : Date) (e : Event) (r : Loop × Cluster × Bool)
      → IsKept owner heartbeat before r.1
      → r.2 ≡ false
      → IsKept owner heartbeat before (led f now today e r).1
  unfolding led
  idle f now today e (l, c, false) k refused = k
  idle f now today e (l, c, true) k refused = absurd (cc)

  step-IsKept :
      (f : Faults) (now : ℕ) (today : Date) (e : Event) (l : Loop) (c : Cluster)
      → IsKept owner heartbeat before c
      → str_eq owner l.opts.owner_id ≡ false
      → now ≤ heartbeat + l.opts.lease_ttl
      → IsKept owner heartbeat before (step f now today e l c).1
  unfolding step
  step-IsKept f now today rescue_tick l c k other fresh =
      let (kept, refused) = acquire-IsKept f now l c k other fresh in
      idle f now today rescue_tick (acquire_leadership f now l c) kept refused
  step-IsKept f now today partition_tick l c k other fresh =
      let (kept, refused) = acquire-IsKept f now l c k other fresh in
      idle f now today partition_tick (acquire_leadership f now l c) kept refused
  step-IsKept f now today stats_tick l c k other fresh = k
  step-IsKept f now today done l c k other fresh = release-IsKept f l c k other

  take_turn-IsKept :
      (t : Turn) (c : Cluster)
      → IsKept owner heartbeat before c
      → IsOther owner heartbeat t
      → IsKept owner heartbeat before (take_turn t c)
  unfolding take_turn
  take_turn-IsKept t c k (other, fresh) =
      step-IsKept t.faults t.now t.today t.event t.loop c k other fresh

-- While an owner's heartbeat on the maintenance lease is within the time to live, no turns of other
-- owners' loops, in any order and whichever of their calls fail, change the queue, the workers, the
-- idempotency keys or the partitions, and the lease stays the owner's.
pub leader_alone :
    (owner : String) (heartbeat : ℕ) (before : Cluster) (ts : List Turn) (c : Cluster)
    → IsKept owner heartbeat before c
    → All (IsOther owner heartbeat) ts
    → IsKept owner heartbeat before (take_turns ts c)
unfolding take_turns
leader_alone owner heartbeat before [] c k _ = k
leader_alone owner heartbeat before (t ∷ ts) c k os =
    leader_alone owner heartbeat before ts (take_turn t c)
      (take_turn-IsKept owner heartbeat before t c k os.0) os.1

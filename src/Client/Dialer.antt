-- ===== src/Client/Dialer.antt =====
-- internal/adapters/outbound/deliveryhttp/dnscache.go and dialer.go. The standard library's address
-- parsers, the resolver's answer and the connections are arguments.
mod Examples
use huxio.Prelude.{
  ℕ, ◌+◌, ◌*◌, ◌≡◌, refl, Bool, true, false, not, ◌&&◌, ◌||◌, Option, none, some, List, [], ◌∷◌,
  ◌++◌, String, str_eq, eq_iff, ltb, if◌then◌else◌, ℤ, positive_or, keep, All, All-keep, All-of,
  All-append, arith, Bool-cases, inl, inr, length,
}
use huxio.Prelude.Dict.{Dict, get, put, get-put_self}
use huxio.Dispatch.Breaker.{second}
use huxio.Client.Guard.{Addr, Guard, allow, filter}

-- A resolver's answer, `none` for its error.
abbrev pub Answer : Type 0
Answer = Option (List Addr)

pub record DnsEntry : Type 0 where
  pub answer : Answer
  pub expires_at : ℕ

pub record DnsCache : Type 0 where
  pub ttl : ℕ
  pub neg_ttl : ℕ
  pub entries : Dict DnsEntry

-- `NewDNSCache`
unfoldable pub new_dns_cache : ℤ → ℤ → DnsCache
new_dns_cache ttl neg_ttl = record {
  ttl = positive_or ttl (30 * second);
  neg_ttl = positive_or neg_ttl (5 * second);
  entries = [];
}

abbrev pub time_to_live : DnsCache → Answer → ℕ
time_to_live c none = c.neg_ttl
time_to_live c (some addrs) = c.ttl

-- The end of `Lookup`, after a miss.
abbrev pub remember : DnsCache → ℕ → String → Answer → DnsCache × Answer
remember c now host answer = (
  record c {
    entries =
        put c.entries host (record { answer = answer; expires_at = now + time_to_live c answer });
  },
  answer,
)

-- `DNSCache.Lookup`: a literal, a fresh entry, or the resolver's answer.
unfoldable pub lookup : (String → Option Addr) → DnsCache → ℕ → String → Answer → DnsCache × Answer
lookup parse c now host answer = elim (parse host) [
  | some addr ↦ (c, some (addr ∷ []))
  | none ↦ elim (get c.entries host) [
    | none ↦ remember c now host answer
    | some e ↦ if ltb now e.expires_at then (c, e.answer) else remember c now host answer
  ]
]

-- `Purge`, and how many entries it drops.
unfoldable pub purge : ℕ → DnsCache → DnsCache × ℕ
purge now c = (
  record c { entries = keep (λ (e : String × DnsEntry). ltb now e.1.expires_at) c.entries },
  length (keep (λ (e : String × DnsEntry). not (ltb now e.1.expires_at)) c.entries),
)

-- Whether an address can be connected to, and whether the request has ended when it could not.
pub record Network : Type 0 where
  pub connects : Addr → Bool
  pub cancelled : Addr → Bool

-- The loop of `DialContext`: the addresses that were dialled, and the one that was connected to.
unfoldable pub dial_all : Network → List Addr → List Addr × Option Addr
dial_all n [] = ([], none)
dial_all n (a ∷ as') =
    let (dialled, found) = dial_all n as' in
    if n.connects a
    then (a ∷ [], some a)
    else if n.cancelled a
    then (a ∷ [], none)
    else (a ∷ dialled, found)

-- `DialContext`, with `net.SplitHostPort`.
unfoldable pub dial_context :
    (String → Option (String × String))
    → (String → Option Addr)
    → Guard
    → Network
    → DnsCache
    → ℕ
    → Answer
    → String
    → DnsCache × List Addr × Option Addr
unfolding dial_all
dial_context split parse g n c now answer address = elim (split address) [
  | none ↦ (c, [], none)
  | some (host, port) ↦
      let (c', found) = lookup parse c now host answer in
      elim found [
        | none ↦ (c', [], none)
        | some addrs ↦ let (dialled, conn) = dial_all n (filter g addrs) in (c', dialled, conn)
      ]
]

-- The address of a connection passed the guard too.
abbrev pub IsGuarded : Guard → DnsCache × List Addr × Option Addr → Type 0
IsGuarded g (c, dialled, none) = All (λ a. allow g a ≡ true) dialled
IsGuarded g (c, dialled, some a) = All (λ a. allow g a ≡ true) dialled × (allow g a ≡ true)

dial_all-IsGuarded :
    (g : Guard) (n : Network) (c : DnsCache) (addrs : List Addr)
    → All (λ a. allow g a ≡ true) addrs
    → let (dialled, conn) = dial_all n addrs in IsGuarded g (c, dialled, conn)
unfolding dial_all
dial_all-IsGuarded g n c [] h = tt
dial_all-IsGuarded g n c (a ∷ addrs) h =
    cases (n.connects a) (n.cancelled a) (dial_all n addrs) (dial_all-IsGuarded g n c addrs h.1)
  where
    cases :
        (connects cancelled : Bool) (rest : List Addr × Option Addr)
        → IsGuarded g (c, rest.0, rest.1)
        → let tried : List Addr × Option Addr =
            if connects
            then (a ∷ [], some a)
            else if cancelled
            then (a ∷ [], none)
            else (a ∷ rest.0, rest.1) in
          IsGuarded g (c, tried.0, tried.1)
    cases true cancelled rest ih = ((h.0, tt), h.0)
    cases false true rest ih = (h.0, tt)
    cases false false (dialled, none) ih = (h.0, ih)
    cases false false (dialled, some b) ih = ((h.0, ih.0), ih.1)

-- Whatever name is looked up, from the cache or not, only addresses that pass the guard are dialled or
-- connected to.
pub dial_context-IsGuarded :
    (split : String → Option (String × String)) (parse : String → Option Addr) (g : Guard)
    (n : Network) (c : DnsCache) (now : ℕ) (answer : Answer) (address : String)
    → IsGuarded g (dial_context split parse g n c now answer address)
unfolding dial_context filter
dial_context-IsGuarded split parse g n c now answer address = cases (split address)
  where
    found :
        (c' : DnsCache) (o : Answer)
        → IsGuarded g (elim o [
          | none ↦ (c', [], none)
          | some addrs ↦ let (dialled, conn) = dial_all n (filter g addrs) in (c', dialled, conn)
        ])
    found c' none = tt
    found c' (some addrs) = dial_all-IsGuarded g n c' (filter g addrs) (
        All-keep (λ a. allow g a ≡ true) (allow g) addrs
          (All-of (λ a. allow g a ≡ true → allow g a ≡ true) (λ a e. e) addrs))

    cases :
        (o : Option (String × String))
        → IsGuarded g (elim o [
          | none ↦ (c, [], none)
          | some (host, port) ↦
              let (c', found) = lookup parse c now host answer in
              elim found [
                | none ↦ (c', [], none)
                | some addrs ↦
                    let (dialled, conn) = dial_all n (filter g addrs) in (c', dialled, conn)
              ]
        ])
    cases none = tt
    cases (some (host, port)) = let (c', o) = lookup parse c now host answer in found c' o

-- What a miss has stored is served until its time to live has passed, and then no more.
pub lookup-remember :
    (parse : String → Option Addr) (c : DnsCache) (now later : ℕ) (host : String)
    (answer answer' : Answer)
    → parse host ≡ none
    → lookup parse (remember c now host answer).0 later host answer' ≡ (
        if ltb later (now + time_to_live c answer)
        then ((remember c now host answer).0, answer)
        else remember (remember c now host answer).0 later host answer')
unfolding lookup
lookup-remember parse c now later host answer answer' name = ground (
  arith,
  name,
  get-put_self c.entries host
      (record { answer = answer; expires_at = now + time_to_live c answer }),
)

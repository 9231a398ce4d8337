-- ===== src/Client/Guard/Blocked.antt =====
-- The guard against its list of blocked ranges.
use huxio.Prelude.{
  ℕ, ◌+◌, ◌*◌, ◌/◌, ◌%◌, ◌^◌, ◌<◌, ◌≡◌, ◌⊎◌, refl, Bool, true, false, not, ◌&&◌, ◌||◌, String,
  str_eq, ◌==◌, any, arith, Bool-cases, inl, inr,
}
use huxio.Client.Guard.{
  Addr, invalid, v4, v6, Guard, holds, in_blocked, is_special, unmap, is_valid, allow_unmapped,
  allow,
}

abbrev pub InRange : Addr → Type 0
InRange invalid = Unit
InRange (v4 a) = a < 2 ^ 32
InRange (v6 a zone) = a < 2 ^ 128

-- An address that the special tests refuse lies in a blocked range, if it has no zone.
abbrev pub HasNoZone : Addr → Type 0
HasNoZone (v6 a zone) = zone ≡ ""
HasNoZone _ = Unit

special4-in_blocked : (a : ℕ) → a < 2 ^ 32 → is_special (v4 a) ≡ true → in_blocked (v4 a) ≡ true
unfolding is_special in_blocked
special4-in_blocked a bound h = ground arith

special6-in_blocked :
    (a : ℕ) → a < 2 ^ 128 → is_special (v6 a "") ≡ true → in_blocked (v6 a "") ≡ true
unfolding is_special in_blocked
special6-in_blocked a bound h = ground arith

-- An address that is really an IPv4 one is judged as that, whatever zone it has.
pub allow-mapped :
    (g : Guard) (a : ℕ) (zone : String)
    → a < 2 ^ 32
    → allow g (v6 (0xffff * 2 ^ 32 + a) zone) ≡ allow g (v4 a)
unfolding allow unmap
allow-mapped g a zone bound = ground arith

-- What the guard is meant to permit: an address that an operator has allowed, or that lies in no
-- blocked range.
abbrev pub permitted : Guard → Addr → Bool
permitted g a =
    g.allow_all
    || (is_valid a && (any (λ p. holds p (unmap a)) g.allowed || not (in_blocked (unmap a))))

allow_unmapped-permitted :
    (g : Guard) (a : Addr)
    → InRange a
    → HasNoZone a
    → is_valid a ≡ true
    → allow_unmapped g a ≡ (any (λ p. holds p a) g.allowed || not (in_blocked a))
unfolding allow_unmapped
allow_unmapped-permitted g invalid range plain ok = absurd (cc)
allow_unmapped-permitted g (v4 a) range plain ok = ground (arith, special4-in_blocked a range)
allow_unmapped-permitted g (v6 a zone) range plain ok =
    rw plain (ground (arith, special6-in_blocked a range))

-- For an address without a zone, the guard is exactly its list of ranges: its tests for loopback,
-- link-local, multicast and unspecified addresses refuse nothing that the list lets pass.
pub allow-permitted : (g : Guard) (a : Addr) → InRange a → HasNoZone a → allow g a ≡ permitted g a
unfolding allow unmap
allow-permitted g invalid range plain = ground arith
allow-permitted g (v4 a) range plain =
    ground (arith, allow_unmapped-permitted g (v4 a) range tt refl)
allow-permitted g (v6 a zone) range plain = elim (Bool-cases (a / 2 ^ 32 == 0xffff)) [
  | inl mapped ↦
      rw mapped (ground (arith, allow_unmapped-permitted g (v4 (a % 2 ^ 32)) (omega arith) tt refl))
  | inr native ↦ rw native (ground (arith, allow_unmapped-permitted g (v6 a zone) range plain refl))
]

zoned-special :
    (a : ℕ) (zone : String)
    → str_eq zone "" ≡ false
    → (a / 2 ^ 121 ≡ 126) ⊎ (a ≡ 0)
    → (is_special (v6 a zone) ≡ false)
      × (in_blocked (v6 a zone) ≡ false)
      × ((a / 2 ^ 32 == 0xffff) ≡ false)
unfolding is_special in_blocked
zoned-special a zone zoned (inl local) = (ground arith, ground arith, ground arith)
zoned-special a zone zoned (inr zero) = (ground arith, ground arith, ground arith)

zoned-allowed :
    (g : Guard) (a : ℕ) (zone : String)
    → str_eq zone "" ≡ false
    → (a / 2 ^ 121 ≡ 126) ⊎ (a ≡ 0)
    → allow g (v6 a zone) ≡ true
unfolding allow unmap allow_unmapped
zoned-allowed g a zone zoned which = ground (arith, zoned-special a zone zoned which)

-- No range contains an address with a zone: the guard then permits every unique local address, and the
-- unspecified one, although it blocks both without the zone.
pub allow-zoned :
    (g : Guard) (a : ℕ) (zone : String)
    → str_eq zone "" ≡ false
    → (a / 2 ^ 121 ≡ 126) ⊎ (a ≡ 0)
    → (allow g (v6 a zone) ≡ true) × (in_blocked (v6 a "") ≡ true)
unfolding in_blocked
allow-zoned g a zone zoned (inl local) = (zoned-allowed g a zone zoned (inl local), ground arith)
allow-zoned g a zone zoned (inr zero) = (zoned-allowed g a zone zoned (inr zero), ground arith)

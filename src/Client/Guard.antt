-- ===== src/Client/Guard.antt =====
-- internal/adapters/outbound/deliveryhttp/ssrf.go, with what it uses of net/netip: an address is its
-- number, and a prefix holds no address that has a zone.
pub mod Blocked
mod Examples
use huxio.Prelude.{
  ℕ, ◌+◌, ◌-◌, ◌*◌, ◌/◌, ◌%◌, ◌^◌, Bool, true, false, not, ◌&&◌, ◌||◌, Option, none, some, List, [],
  ◌∷◌, String, str_eq, ◌==◌, leb, ltb, if◌then◌else◌, any, keep,
}

-- `netip.Addr`; an IPv6 address without a zone has the empty one.
pub data Addr : Type 0 where
  invalid : Addr
  v4 : ℕ → Addr
  v6 : ℕ → String → Addr

pub data Prefix : Type 0 where
  prefix4 : ℕ → ℕ → Prefix
  prefix6 : ℕ → ℕ → Prefix

-- `Prefix.Contains`: the same family, no zone, and the same leading bits.
abbrev pub holds : Prefix → Addr → Bool
holds (prefix4 p bits) (v4 a) = a / 2 ^ (32 - bits) == p / 2 ^ (32 - bits)
holds (prefix6 p bits) (v6 a zone) =
    str_eq zone "" && (a / 2 ^ (128 - bits) == p / 2 ^ (128 - bits))
holds _ _ = false

-- A dotted quad
abbrev pub quad : ℕ → ℕ → ℕ → ℕ → ℕ
quad a b c d = ((a * 256 + b) * 256 + c) * 256 + d

-- The first 16 bits, or the first 32.
abbrev pub top16 : ℕ → ℕ
top16 a = a * 2 ^ 112

abbrev pub top32 : ℕ → ℕ → ℕ
top32 a b = a * 2 ^ 112 + b * 2 ^ 96

abbrev pub blocked4 : List Prefix
blocked4 =
    prefix4 (quad 0 0 0 0) 8
    ∷ prefix4 (quad 10 0 0 0) 8
    ∷ prefix4 (quad 100 64 0 0) 10
    ∷ prefix4 (quad 127 0 0 0) 8
    ∷ prefix4 (quad 169 254 0 0) 16
    ∷ prefix4 (quad 172 16 0 0) 12
    ∷ prefix4 (quad 192 0 0 0) 24
    ∷ prefix4 (quad 192 0 2 0) 24
    ∷ prefix4 (quad 192 168 0 0) 16
    ∷ prefix4 (quad 198 18 0 0) 15
    ∷ prefix4 (quad 198 51 100 0) 24
    ∷ prefix4 (quad 203 0 113 0) 24
    ∷ prefix4 (quad 224 0 0 0) 4
    ∷ prefix4 (quad 240 0 0 0) 4
    ∷ prefix4 (quad 255 255 255 255) 32
    ∷ []

abbrev pub blocked6 : List Prefix
blocked6 =
    prefix6 0 128
    ∷ prefix6 1 128
    ∷ prefix6 (top32 0x64 0xff9b) 96
    ∷ prefix6 (top16 0x100) 64
    ∷ prefix6 (top32 0x2001 0xdb8) 32
    ∷ prefix6 (top16 0xfc00) 7
    ∷ prefix6 (top16 0xfe80) 10
    ∷ prefix6 (top16 0xff00) 8
    ∷ []

-- `blockedPrefixes`, whose IPv4 entries come first
unfoldable pub in_blocked : Addr → Bool
in_blocked a = any (λ p. holds p a) blocked4 || any (λ p. holds p a) blocked6

-- `IsLoopback`, `IsLinkLocalUnicast`, `IsLinkLocalMulticast`, `IsInterfaceLocalMulticast`,
-- `IsMulticast` and `IsUnspecified`. All but the last, which compares whole addresses, ignore a zone.
abbrev pub is_loopback : Addr → Bool
is_loopback invalid = false
is_loopback (v4 a) = a / 2 ^ 24 == 127
is_loopback (v6 a zone) = a == 1

abbrev pub is_link_local_unicast : Addr → Bool
is_link_local_unicast invalid = false
is_link_local_unicast (v4 a) = a / 2 ^ 16 == 169 * 256 + 254
is_link_local_unicast (v6 a zone) = a / 2 ^ 118 == 0xfe80 / 64

abbrev pub is_link_local_multicast : Addr → Bool
is_link_local_multicast invalid = false
is_link_local_multicast (v4 a) = a / 2 ^ 8 == 224 * 65_536
is_link_local_multicast (v6 a zone) = (a / 2 ^ 120 == 0xff) && (a / 2 ^ 112 % 16 == 2)

abbrev pub is_interface_local_multicast : Addr → Bool
is_interface_local_multicast invalid = false
is_interface_local_multicast (v4 a) = false
is_interface_local_multicast (v6 a zone) = (a / 2 ^ 120 == 0xff) && (a / 2 ^ 112 % 16 == 1)

abbrev pub is_multicast : Addr → Bool
is_multicast invalid = false
is_multicast (v4 a) = a / 2 ^ 28 == 14
is_multicast (v6 a zone) = a / 2 ^ 120 == 0xff

abbrev pub is_unspecified : Addr → Bool
is_unspecified invalid = false
is_unspecified (v4 a) = a == 0
is_unspecified (v6 a zone) = str_eq zone "" && (a == 0)

unfoldable pub is_special : Addr → Bool
is_special a =
    is_loopback a
    || is_link_local_unicast a
    || is_link_local_multicast a
    || is_interface_local_multicast a
    || is_multicast a
    || is_unspecified a

-- `Is4In6` and `Unmap`, which drops the zone.
unfoldable pub unmap : Addr → Addr
unmap (v6 a zone) = if a / 2 ^ 32 == 0xffff then v4 (a % 2 ^ 32) else v6 a zone
unmap a = a

abbrev pub is_valid : Addr → Bool
is_valid invalid = false
is_valid _ = true

pub record Guard : Type 0 where
  pub allowed : List Prefix
  pub allow_all : Bool

-- `NewGuard`, with `netip.ParsePrefix`: a subnet that does not parse is an error.
unfoldable pub new_guard : (String → Option Prefix) → List String → Bool → Option Guard
new_guard parse [] allow_private = some (record { allowed = []; allow_all = allow_private })
new_guard parse (raw ∷ rest) allow_private = elim (parse raw) [
  | none ↦ none
  | some p ↦ elim (new_guard parse rest allow_private) [
    | none ↦ none
    | some g ↦ some (record g { allowed = p ∷ g.allowed })
  ]
]

-- After the zone-free form is taken.
unfoldable pub allow_unmapped : Guard → Addr → Bool
allow_unmapped g a =
    if any (λ p. holds p a) g.allowed
    then true
    else if is_special a
    then false
    else not (in_blocked a)

-- `Guard.Allow`
unfoldable pub allow : Guard → Addr → Bool
unfolding allow_unmapped
allow g a =
    if g.allow_all then true else if not (is_valid a) then false else allow_unmapped g (unmap a)

-- `Guard.Filter`
unfoldable pub filter : Guard → List Addr → List Addr
filter g addrs = keep (allow g) addrs

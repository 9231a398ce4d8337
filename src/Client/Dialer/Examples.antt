-- ===== src/Client/Dialer/Examples.antt =====
-- A name that resolves to a local address and a public one.
use huxio.Prelude.{◌≡◌, refl, true, false, Option, none, some, List, [], ◌∷◌, String, pos}
use huxio.Prelude.Dict.{get}
use huxio.Client.Guard.{Addr, v4, Guard, quad, allow, filter, is_special, unmap, in_blocked}
use huxio.Client.Dialer.{
  DnsCache, new_dns_cache, Network, dial_all, lookup, IsGuarded, dial_context,
  dial_context-IsGuarded,
}

abbrev guard : Guard
guard = record { allowed = []; allow_all = false }

abbrev local : Addr
local = v4 (quad 127 0 0 1)

abbrev public : Addr
public = v4 (quad 93 184 216 34)

abbrev net : Network
net = record { connects = λ a. true; cancelled = λ a. false }

abbrev cache : DnsCache
cache = new_dns_cache (pos 0) (pos 0)

abbrev split : String → Option (String × String)
split address = some ("example.org", "443")

abbrev parse : String → Option Addr
parse host = none

abbrev at_example : DnsCache × List Addr × Option Addr
at_example =
    dial_context split parse guard net cache 5 (some (local ∷ public ∷ [])) "example.org:443"

public_dialled : (at_example.1 ≡ public ∷ []) × (at_example.2 ≡ some public)
unfolding dial_context dial_all lookup filter allow new_dns_cache get is_special unmap in_blocked
public_dialled = (refl, refl)

dial_context-IsGuarded_example : IsGuarded guard at_example
dial_context-IsGuarded_example =
    dial_context-IsGuarded split parse guard net cache 5 (some (local ∷ public ∷ []))
      "example.org:443"

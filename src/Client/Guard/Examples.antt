-- ===== src/Client/Guard/Examples.antt =====
-- Addresses of clouds and local networks.
use huxio.Prelude.{◌*◌, ◌+◌, ◌^◌, ◌≡◌, refl, true, false, [], ◌∷◌, arith, inl}
use huxio.Client.Guard.{v4, v6, prefix4, Guard, quad, top16, in_blocked, allow, unmap, is_special}
use huxio.Client.Guard.Blocked.{permitted, allow-permitted, allow-zoned}

-- An operator allows one office network.
abbrev office : Guard
office = record { allowed = prefix4 (quad 10 1 0 0) 16 ∷ []; allow_all = false }

metadata_refused : allow office (v4 (quad 169 254 169 254)) ≡ false
unfolding allow unmap is_special
metadata_refused = refl

office_allowed : allow office (v6 (0xffff * 2 ^ 32 + quad 10 1 2 3) "") ≡ true
unfolding allow unmap is_special
office_allowed = refl

allow-permitted_example :
    allow office (v4 (quad 169 254 169 254)) ≡ permitted office (v4 (quad 169 254 169 254))
allow-permitted_example = allow-permitted office (v4 (quad 169 254 169 254)) (omega arith) tt

allow-zoned_example :
    (allow office (v6 (top16 0xfd00 + 1) "eth0") ≡ true)
    × (in_blocked (v6 (top16 0xfd00 + 1) "") ≡ true)
allow-zoned_example = allow-zoned office (top16 0xfd00 + 1) "eth0" refl (inl refl)

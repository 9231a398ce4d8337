-- ===== src/Client.antt =====
-- internal/adapters/outbound/deliveryhttp: which addresses a delivery may reach.
pub mod Guard
pub mod Dialer

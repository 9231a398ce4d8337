-- ===== src/Domain/Signing/Examples.antt =====
-- A timestamp.

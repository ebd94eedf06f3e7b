-- ===== src/Examples/Roles.antt =====
-- The same chain in both roles.

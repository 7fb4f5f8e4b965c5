-- ===== src/Primer.antt =====
-- The data structures of the primer.
pub mod CountMin

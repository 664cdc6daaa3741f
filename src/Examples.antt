-- ===== src/Examples.antt =====
-- The programs of examples.
pub mod HyperStatic

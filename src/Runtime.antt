-- ===== src/Runtime.antt =====
-- services/simulation-server/src/runtime: the parts that run together.
pub mod Generation

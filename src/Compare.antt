-- ===== src/Compare.antt =====
-- examples/compare.rs: the simulations that are compared with SimPy's.
pub mod Args
pub mod Await
pub mod Events
pub mod Json
pub mod Container
pub mod Queue
pub mod Reports

-- ===== src/Request/Invariant.antt =====
-- src/resource/mod.rs and src/resource/priority.rs: the invariant of a pool in use.
mod Defs
mod Releasing
mod Making
mod Polling
mod Dropping
mod Steps
pub use Defs.*
pub use Steps.*
pub use Making.{new_pool-Inv, request-Inv}
pub use Dropping.{drop-Inv, drop_guard-Inv}

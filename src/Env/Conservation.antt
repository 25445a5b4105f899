-- ===== src/Env/Conservation.antt =====
-- src/env.rs: what processes hold between them, and the event loop that hands it about.
pub mod Slots
pub mod Calls
pub mod Loop
pub mod Law

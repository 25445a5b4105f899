-- ===== src/Executor.antt =====
-- src/executor/: the state of a simulation, its event queue and the wakers of its processes.
pub mod Waker
pub mod State
pub mod Order

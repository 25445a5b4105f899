-- ===== src/Python.antt =====
-- simcore-python/src/lib.rs: the Python binding. Generators and coroutines are Python code: what
-- sending a value into one does is a parameter.
pub mod Objects
pub mod Draws
pub mod Driver
pub mod Arms
pub mod Trampoline
pub mod Composition
pub mod Awaiting
pub mod Checks
pub mod Guards
pub mod Simulation

-- ===== src/Tests.antt =====
-- Runs of the components on small inputs, each with the theorem it is a case of.
mod Pools
mod Containers
mod Loops
mod Endings
mod Others
mod Preemption
mod Python
mod Queues
mod Sampling
mod Signed
mod Compare

-- ===== src/Tests.antt =====
-- Runs of the model on sample builders, and on a cluster in memory.
mod Samples
mod Api
mod Files
mod Objects
mod Runs
mod Certificates
mod Reconciliations
mod Lifecycles
mod Processes
mod Memories

-- ===== src/Kube.antt =====
-- The Kubernetes API types, with the fields that the source reads or writes.
pub mod Meta
pub mod Network
pub mod Storage
pub mod Workload

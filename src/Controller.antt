-- ===== src/Controller.antt =====
-- internal/controller: the reconciler of BuildkitBuilder objects, one module for each part.
pub mod Metadata
pub mod Labels
pub mod Merge
pub mod Toml
pub mod PodSpec
pub mod Objects
pub mod Ingress
pub mod Conditions
pub mod Sleep
pub mod Upsert
pub mod Tls
pub mod Endpoint
pub mod Status
pub mod Exposure
pub mod Reconcile

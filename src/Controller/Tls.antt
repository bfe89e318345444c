-- ===== src/Controller/Tls.antt =====
-- internal/controller/tls.go
pub mod Certificates
pub mod Namespace
pub mod Server
pub mod Renewal
pub mod Creation
pub mod Serving
pub mod Issue

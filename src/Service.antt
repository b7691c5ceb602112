-- ===== src/Service.antt =====
-- internal/service/service.go: the lifecycle rules over the store.
pub mod Requests
pub mod Execution
pub mod Gates
pub mod Disposal
pub mod Signing
pub mod Reviews
pub mod Versions

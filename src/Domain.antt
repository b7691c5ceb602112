-- ===== src/Domain.antt =====
-- internal/domain: the entities, their state machines and the overwrite standards.
pub mod Status
pub mod Entities
pub mod Standards
pub mod Lifecycle

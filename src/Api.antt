-- ===== src/Api.antt =====
-- internal/api: the HTTP endpoints over the service, the store, the worker and the object store.
pub mod Reply
pub mod Request
pub mod Handlers
pub mod Endpoints
pub mod Reads
pub mod Operators
pub mod Disposals
pub mod Downloads

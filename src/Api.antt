-- ===== src/Api.antt =====
-- internal/api: who may use the HTTP interface, how often, and under which session.
pub mod Rbac
pub mod Limiter
pub mod Gate
pub mod Chat
pub mod Http

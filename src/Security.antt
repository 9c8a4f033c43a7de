-- ===== src/Security.antt =====
-- internal/security: API keys, JSON web tokens, permissions, and the wrappers that keep tenants apart.
pub mod Identities
pub mod Jwt
pub mod Keys
pub mod Uploads
pub mod Tenants
pub mod Permissions

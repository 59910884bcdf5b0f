-- ===== src/Session.antt =====
-- session/: what the service keeps between requests, in the deployment's shared cache.
pub mod Types
pub mod Shared
pub mod Cache

-- ===== src/Registry.antt =====
-- registry/registry.go: the registry of clients. The rows and their validation, the load of a
-- document, and what the loaded registry answers at the token and authorization endpoints.
pub mod Scopes
pub mod Rows
pub mod Validate
pub mod Load
pub mod Secrets
pub mod Grants
pub mod SignIn

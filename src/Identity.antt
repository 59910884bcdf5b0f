-- ===== src/Identity.antt =====
-- identity/: the sign-in methods and assurance levels, what a provider's answer resolves to, the
-- signing flows that a sign-in permits, and the choice of signing identities.
pub mod Methods
pub mod Resolver
pub mod Catalog

-- ===== src/Registry/Validate.antt =====
-- registry/registry.go: what a row may hold. Each check answers the first refusal, `none` when the
-- row is accepted; the texts of the refusals are not modelled. `net/url` is a parameter.
pub mod Client
pub mod Address
pub mod SignIn

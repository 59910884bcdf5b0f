-- ===== src/Routes/Token.antt =====
-- routes/token.go: the token endpoint, one module for each grant.
pub mod Person
pub mod Service
pub mod Exchange
pub mod Endpoint
pub mod Refreshing
pub mod Exchanging
pub mod Serving
pub mod Redeeming

-- ===== src/Store.antt =====
-- session/store.go: the store's calls, how each ran, and what the store promises.
pub mod Calls
pub mod Index
pub mod Answers
pub mod Laws

-- ===== src/Profile.antt =====
-- cmd/sshcustomd/main.go: the profiles, from the request that saves one to the endpoint it dials.
pub mod Data
pub mod Names
pub mod Select
pub mod Transport
pub mod Upsert
pub mod Fresh
pub mod Handlers
pub mod WellFormed
pub mod Saved
pub mod Dialable
pub mod Selected

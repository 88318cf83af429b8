-- ===== src/Model.antt =====
-- model.go: identifiers, validation, transient users, and access tokens.
pub mod Ids
pub mod Language
pub mod Names
pub mod Offline
pub mod Tokens

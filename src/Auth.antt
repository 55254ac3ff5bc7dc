-- ===== src/Auth.antt =====
-- internal/auth: accounts, sessions, and the verification of e-mail addresses.
pub mod Repo
pub mod Session
pub mod Handler
pub mod Middleware
pub mod Lookups
pub mod Disclosure
pub mod Gate
pub mod Verifying
pub mod Accounts
pub mod Joining

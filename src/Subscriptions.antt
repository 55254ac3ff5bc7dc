-- ===== src/Subscriptions.antt =====
-- internal/subscriptions: applications subscribe to products, an administrator approves, and the
-- gateway is provisioned.
pub mod Model
pub mod Repo
pub mod Service
pub mod Handler
pub mod Preserving
pub mod Provisioning

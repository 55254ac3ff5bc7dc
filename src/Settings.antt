-- ===== src/Settings.antt =====
-- internal/settings: the configuration that administrators change while the portal runs.
pub mod Snapshot
pub mod Registry
pub mod Service
pub mod Handler
pub mod Overrides
pub mod Candidates
pub mod Restarting
pub mod Policy
pub mod Secrets
pub mod Probes
pub mod Listing

-- ===== src/Tests.antt =====
-- The theorems at concrete inputs.
pub mod Records
pub mod Objects
pub mod Hosts
pub mod Services
pub mod Reconcilers
pub mod Queue
pub mod Watchers
pub mod Controllers
pub mod Routes
pub mod Secrets

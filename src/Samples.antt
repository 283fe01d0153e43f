-- ===== src/Samples.antt =====
-- Concrete inputs, and the theorems applied to them.
pub mod Milli
pub mod World
pub mod Scheduling
pub mod Attribution
pub mod Sharing
pub mod Settings
pub mod Splitting
pub mod Models
pub mod Trial
pub mod Artifacts
pub mod Requests
pub mod Runs
pub mod Scored
pub mod NodeIds
pub mod Commands
pub mod Identifiers

-- ===== src/Tests.antt =====
-- Tests, and one instance of each theorem that has hypotheses.
pub mod Acknowledged
pub mod Data
pub mod Pipeline
pub mod Runs
pub mod Settings
pub mod Alerts
pub mod Follow
pub mod Store
pub mod Load
pub mod Commands
pub mod Serving
pub mod Api
pub mod Requests

-- ===== src/Requirements.antt =====
-- internal/requirements: what a workload needs and does not have, reported once it has been missing
-- for a while.
pub mod Evaluator
pub mod Debounce
pub mod Context
pub mod Issuers
pub mod Monitors
pub mod Monitored
pub mod Istio
pub mod History
pub mod Restarts
pub mod Registered
mod Tests

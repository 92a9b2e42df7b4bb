-- ===== src/Pipeline.antt =====
-- From an object of the cluster to a notification: internal/discovery/engine.go, the index, and
-- internal/correlator/correlator.go together.
pub mod Notified
mod Tests

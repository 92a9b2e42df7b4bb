-- ===== src/Discovery.antt =====
-- internal/discovery/engine.go: which resources are watched, and what the objects of a watched
-- resource do to the index.
pub mod Engine
pub mod Configuration
pub mod Watching
pub mod Objects
pub mod Stale
pub mod Profiles
pub mod Reconciling
pub mod Scanning
pub mod Scans
mod Tests

-- ===== src/Workloads.antt =====
-- internal/notifier/workload_annotator.go: the annotations on workloads.
pub mod Annotations
pub mod Annotator
pub mod Severities
pub mod Queueing
pub mod Steps
pub mod Spacing
pub mod Losses
mod Tests

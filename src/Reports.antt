-- ===== src/Reports.antt =====
-- internal/notifier/report_reconciler.go: the reports of the namespaces.
pub mod Entries
pub mod Status
pub mod Reconciler
pub mod Counting
pub mod Triggers
pub mod Rounds
pub mod Histories
mod Tests

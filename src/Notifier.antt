-- ===== src/Notifier.antt =====
-- internal/notifier: what Nightjar tells developers, and how often.
pub mod Templates
pub mod Steps
pub mod Remediation
pub mod EventBuilder
pub mod BuildEvent
pub mod Privacy
pub mod Remedies
pub mod Messages
pub mod Dispatcher
pub mod Limits
pub mod Dispatching
mod Tests

-- ===== src/Webhook.antt =====
-- cmd/webhook: the admission webhook, which warns of constraints and rejects nothing.
pub mod Admission
pub mod Answers
pub mod Tests

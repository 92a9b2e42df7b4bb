-- ===== src/Mcp.antt =====
-- internal/mcp: the tools and resources for agents.
pub mod Results
pub mod Messages
pub mod Explain
pub mod Namespaces
pub mod Handlers
pub mod Checks
pub mod Resources
pub mod Summaries
pub mod Answers
pub mod Queries
pub mod Matching
mod Tests

-- ===== src/Api.antt =====
-- internal/api: the endpoints of the controller.
pub mod Constraints
pub mod Served
mod Tests

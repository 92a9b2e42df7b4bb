-- ===== src/Hubble.antt =====
-- internal/hubble: flow drops that Hubble reports, their conversion, and the client that receives
-- them.
pub mod Flow
pub mod Converter
pub mod Conversion
pub mod Client
pub mod Connection
pub mod Backoff
pub mod Tests

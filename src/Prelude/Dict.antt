-- ===== src/Prelude/Dict.antt =====
-- Go maps: an association list with distinct keys. The order of the list stands for the order in
-- which a `range` over the map visits it, which Go leaves open.
mod Laws
pub use Laws.*
pub mod Defs
pub use Defs.{Dict, HasDistinctKeys, Agree}
unfoldable pub use Defs.{lookup, erase, insert, retain, values, keys, size}

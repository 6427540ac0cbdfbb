-- ===== src/Text.antt =====
-- Rust's `str` and `String` as lists of code points, with the operations of the standard library
-- that the source calls: equality, search, splitting, trimming, ASCII case, and lengths in bytes.
pub mod Defs
pub mod Equality
pub mod Search
pub mod Split
pub mod Trim
pub mod Sets
pub mod Maps
pub mod Ascii
unfoldable pub use Defs.*

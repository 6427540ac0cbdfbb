-- ===== src/Supersession.antt =====
-- Suppression of stale memory (src/supersession.rs). The parser of RFC 3339 times is a parameter.
pub mod Words
pub mod Graph
pub mod Links
pub mod Heuristic

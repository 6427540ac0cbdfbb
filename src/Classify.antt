-- ===== src/Classify.antt =====
-- The classification of memories: the shared text signals (src/signals.rs), the kind and scope that a
-- write is given (src/write_classify.rs), and what is injected at session start (src/inject.rs).
-- `str::to_lowercase`, which follows the Unicode tables, is a parameter with its documented effect on
-- ASCII.
pub mod Signals
pub mod Write
pub mod Inject
pub mod Agreement

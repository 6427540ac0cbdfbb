-- ===== src/Hook/Cycle/Refused.antt =====
-- The calls under the lock of a session that fail before they write.
use hive_memory.Text.{Text}

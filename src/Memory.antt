-- ===== src/Memory.antt =====
-- internal/memory: conversation stores, their compaction, and long-term facts.
pub mod Compact
pub mod Sessions
pub mod Facts

-- ===== src/Gpt.antt =====
-- The GPT parser of scripts/capture-recovery-baseline.py.
pub mod Defs
pub mod Header
pub mod Entries
pub mod Pair

-- ===== src/Capture.antt =====
-- scripts/capture-recovery-baseline.py: the validation of what was read.
pub mod Defs
pub mod Uniform
pub mod Pass
pub mod Host
pub mod Manifest
pub mod Both
pub mod Tool
pub mod Main

-- ===== src/BootImage.antt =====
-- scripts/build-test-boot-image.py: an unsigned boot image for tests.
pub mod Defs
pub mod Compare
pub mod Arguments
pub mod Write
pub mod Tools
pub mod Inputs
pub mod Manifest
pub mod Main
pub mod RoundTrip
pub mod Built
pub mod Whole

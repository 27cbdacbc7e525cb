-- ===== src/Handshake.antt =====
-- scripts/probe-mtk-handshake.py: the USB handshake with a MediaTek boot transport.
pub mod Usb
pub mod Endpoints
pub mod Wait
pub mod Sync
pub mod Probe
pub mod Traffic

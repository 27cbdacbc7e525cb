-- ===== src/Tests.antt =====
-- Runs of the model on concrete data, and the theorems at inputs that meet their hypotheses.
mod Disk
mod Gpt
mod Plan
mod Bus
mod Handshake
mod Boot
mod Capture
mod Image

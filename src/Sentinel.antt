-- ===== src/Sentinel.antt =====
-- cmd/sentinel: lines of a log masked before they are written.
pub mod Handoff
pub mod Mask
pub mod Window
pub mod Settings
pub mod Lines
pub mod Report

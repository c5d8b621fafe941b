-- ===== src/Detect.antt =====
-- internal/detect
pub mod Span
pub mod Select
pub mod Regex
pub mod Checksum
pub mod Address
pub mod Patterns
pub mod Scan
pub mod Apply

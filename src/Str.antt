-- ===== src/Str.antt =====
-- lib/string.c, by what the routines do.
pub mod Scan
pub mod Copy
pub mod Block
pub mod Compare
pub mod Number

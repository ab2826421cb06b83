-- ===== src/Printf.antt =====
-- lib/printfmt.c: formatted output through a function that takes a character.
pub mod Events
pub mod Buffer
pub mod Conversions
pub mod Format
pub mod Number

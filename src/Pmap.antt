-- ===== src/Pmap.antt =====
-- kern/pmap.c and kern/pmap.h: the physical pages, and kern/entrypgdir.c. A panic is `none`.
pub mod Address
pub mod Detect
pub mod Pages
pub mod Run
pub mod Check
pub mod Entry

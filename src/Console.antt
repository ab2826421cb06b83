-- ===== src/Console.antt =====
-- kern/console.c: the console's input buffer, its keyboard, serial port, printer and screen.
pub mod Ring
pub mod Output
pub mod Keyboard
pub mod Init
pub mod Terminal

-- ===== src/Tests.antt =====
-- Runs of the model on small inputs, and each theorem at a concrete input.
mod Strings
mod Symbols
mod Input
mod Pages
mod Printing
mod Startup
mod Loading
mod Session
mod Table
mod Lines
mod Terminal
mod Numbers
mod Eip
mod Segments
mod Checks
mod Commands
mod Panics

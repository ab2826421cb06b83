-- ===== src/Ports.antt =====
-- The I/O ports. inc/x86.h reaches them by the instructions `in` and `out`, so the devices behind
-- them are a parameter: a state, and what a read and a write of a byte do to it.
pub mod Strings
use vukernelprogramming.Prelude.{ℕ}

pub record Ports : Type 1 where
  pub Device : Type 0
  pub inb : ℕ → Device → ℕ × Device
  pub outb : ℕ → ℕ → Device → Device

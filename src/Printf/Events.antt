-- ===== src/Printf/Events.antt =====
-- What the kernel prints while it starts, as a list of calls: of cprintf with a literal format, of
-- vcprintf, and the instructions cli and cld of _panic in kern/init.c.
use Prim.Native.String.{String}
use vukernelprogramming.Prelude.{ℕ, List}

pub data Event : Type 0 where
  told : String → List ℕ → Event
  formatted : ℕ → List ℕ → Event
  cli_cld : Event

-- ===== src/Printf/Buffer.antt =====
-- Formatted output into a buffer (vsnprintf of lib/printfmt.c) and to the console (kern/printf.c).
-- The format is read from the memory as it is before the call: it stands outside the buffer.
pub mod Bounds
use mathlib.Core.Option
use vukernelprogramming.Prelude.{
  ℕ, ◌+◌, ◌-◌, ◌%◌, Bool, true, false, ◌||◌, Option, none, some, List, ltb, ◌==◌, if◌then◌else◌,
}
use vukernelprogramming.Prelude.Int.{ℤ, pos, negsuc}
use vukernelprogramming.Memory.{Mem, write}
use vukernelprogramming.Printf.Format.{text, vprintfmt}

-- struct sprintbuf, with the memory that it points into
pub record SprintBuf : Type 0 where
  pub mem : Mem
  pub buf : ℕ
  pub ebuf : ℕ
  pub cnt : ℕ

unfoldable pub sprintputch : ℕ → SprintBuf → SprintBuf
unfolding write
sprintputch ch b =
    if ltb b.buf b.ebuf
    then record b { cnt = b.cnt + 1; mem = write b.mem b.buf (ch % 256); buf = b.buf + 1 }
    else record b { cnt = b.cnt + 1 }

-- *b.buf = '\0'; return b.cnt;
unfoldable pub terminate : SprintBuf → ℤ × Mem
unfolding write
terminate b = (pos b.cnt, write b.mem b.buf 0)

-- -E_INVAL is -3
unfoldable pub vsnprintf : ℕ → Mem → ℕ → ℕ → ℕ → List ℕ → Option (ℤ × Mem)
unfolding terminate
vsnprintf f m buf n fmt ap =
    if (buf == 0) || ltb n 1
    then some (negsuc 2, m)
    else Option.map terminate (
        vprintfmt sprintputch m f text fmt ap
          (record { mem = m; buf = buf; ebuf = buf + n - 1; cnt = 0 }))

-- snprintf, whose arguments behind the format are `ap`
unfoldable pub snprintf : ℕ → Mem → ℕ → ℕ → ℕ → List ℕ → Option (ℤ × Mem)
snprintf f m buf n fmt ap = vsnprintf f m buf n fmt ap

module _ {C : Type 0} (cputchar : ℕ → C → C) where
  -- cputchar(ch); *cnt++; which moves the pointer, and leaves the count
  unfoldable pub putch : ℕ → C × ℕ → C × ℕ
  putch ch (c, cnt) = (cputchar ch c, cnt)

  -- the count, and the console
  unfoldable pub vcprintf : ℕ → Mem → ℕ → List ℕ → C → Option (ℕ × C)
  unfolding putch
  vcprintf f m fmt ap c = Option.map (λ r. (r.1, r.0)) (vprintfmt putch m f text fmt ap (c, 0))

  -- cprintf, whose arguments behind the format are `ap`
  unfoldable pub cprintf : ℕ → Mem → ℕ → List ℕ → C → Option (ℕ × C)
  cprintf f m fmt ap c = vcprintf f m fmt ap c

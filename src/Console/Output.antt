-- ===== src/Console/Output.antt =====
-- Output of a character in kern/console.c: the serial port, the printer and the screen.
pub mod Bounds
use Prim.Native.Nat.{bit_and, bit_or}
use vukernelprogramming.Prelude.{
  ℕ, zero, suc, ◌+◌, ◌-◌, ◌*◌, ◌/◌, ◌%◌, ◌^◌, Bool, true, false, not, ltb, leb, ◌==◌, if◌then◌else◌,
}
use vukernelprogramming.Memory.{write, block_copy}
use vukernelprogramming.Ports.{Ports}
use vukernelprogramming.Console.Keyboard.{and_not, any_bit}

abbrev pub crt_rows : ℕ
crt_rows = 25

abbrev pub crt_cols : ℕ
crt_cols = 80

abbrev pub crt_size : ℕ
crt_size = crt_rows * crt_cols

-- the text buffer in cells of 16 bits, the cursor, and the port of the display controller
pub record Screen : Type 0 where
  pub crt_buf : ℕ → ℕ
  pub crt_pos : ℕ
  pub addr_6845 : ℕ

-- if (!(c & ~0xFF)) c |= 0x0700;
unfoldable pub attribute : ℕ → ℕ
attribute c = if and_not c 0xFF == 0 then bit_or c 0x0700 else c

-- crt_pos -= (crt_pos % CRT_COLS);
abbrev pub line_start : ℕ → ℕ
line_start p = p - p % crt_cols

-- the cases of the switch other than '\t', at a character with its attribute; crt_pos is a uint16_t
unfoldable pub put_cell : ℕ → Screen → Screen
unfolding write
put_cell c s =
    if c % 2 ^ 8 == 8
    then (if ltb 0 s.crt_pos
        then record s {
          crt_buf =
              write s.crt_buf ((s.crt_pos + 2 ^ 16 - 1) % 2 ^ 16)
                (bit_or (and_not c 0xFF) b' ' % 2 ^ 16);
          crt_pos = (s.crt_pos + 2 ^ 16 - 1) % 2 ^ 16;
        }
        else s)
    else if c % 2 ^ 8 == 10
    then record s { crt_pos = line_start ((s.crt_pos + crt_cols) % 2 ^ 16) }
    else if c % 2 ^ 8 == 13
    then record s { crt_pos = line_start s.crt_pos }
    else record s {
      crt_buf = write s.crt_buf s.crt_pos (c % 2 ^ 16);
      crt_pos = (s.crt_pos + 1) % 2 ^ 16;
    }

-- for (; i < CRT_SIZE; i++) crt_buf[i] = 0x0700 | ' ';
unfoldable pub clear_cells : ℕ → ℕ → (ℕ → ℕ) → ℕ → ℕ
clear_cells zero i buf = buf
clear_cells (suc n) i buf = clear_cells n (i + 1) (write buf i (bit_or 0x0700 b' '))

-- the rows move up by one, and the last is cleared; memmove is a copy of cells
unfoldable pub scroll : Screen → Screen
scroll s =
    if leb crt_size s.crt_pos
    then record s {
      crt_buf =
          clear_cells crt_cols (crt_size - crt_cols)
            (block_copy s.crt_buf 0 crt_cols (crt_size - crt_cols));
      crt_pos = s.crt_pos - crt_cols;
    }
    else s

module _ (ports : Ports) where
  open ports use {Device, inb, outb}

  -- four reads of an unused port
  delay : Device → Device
  delay d = (inb 0x84 (inb 0x84 (inb 0x84 (inb 0x84 d).1).1).1).1

  -- for (i = 0; !(inb(port) & ready) && i < 12800; i++) delay(); with `left` = 12800 - i
  wait_ready : ℕ → ℕ → ℕ → Device → Device
  wait_ready zero port ready d = (inb port d).1
  wait_ready (suc left) port ready d =
      let rest = wait_ready left port ready (delay (inb port d).1) in
      if any_bit (inb port d).0 ready then (inb port d).1 else rest

  unfoldable pub serial_putc : ℕ → Device → Device
  unfolding wait_ready delay
  serial_putc c d = outb 0x3F8 (c % 2 ^ 8) (wait_ready 12800 0x3FD 0x20 d)

  unfoldable pub lpt_putc : ℕ → Device → Device
  unfolding wait_ready delay
  lpt_putc c d =
      outb 0x37A 0x08 (outb 0x37A 0x0D (outb 0x378 (c % 2 ^ 8) (wait_ready 12800 0x379 0x80 d)))

  -- move that little blinky thing
  unfoldable pub cursor : Screen → Device → Device
  cursor s d =
      outb (s.addr_6845 + 1) (s.crt_pos % 2 ^ 8)
        (outb s.addr_6845 15 (outb (s.addr_6845 + 1) (s.crt_pos / 2 ^ 8) (outb s.addr_6845 14 d)))

  -- what follows the switch of cga_putc
  unfoldable pub after_switch : Screen × Device → Screen × Device
  after_switch (s, d) = (scroll s, cursor (scroll s) d)

  -- cons_putc of a character that is no tab
  unfoldable pub cons_putc_plain : ℕ → Screen × Device → Screen × Device
  cons_putc_plain c (s, d) = after_switch (put_cell (attribute c) s, lpt_putc c (serial_putc c d))

  -- a tab is five spaces, each to all three devices
  unfoldable pub spaces : ℕ → Screen × Device → Screen × Device
  spaces zero x = x
  spaces (suc n) x = spaces n (cons_putc_plain b' ' x)

  unfoldable pub cga_putc : ℕ → Screen × Device → Screen × Device
  cga_putc c (s, d) =
      if attribute c % 2 ^ 8 == 9
      then after_switch (spaces 5 (s, d))
      else after_switch (put_cell (attribute c) s, d)

  unfoldable pub cons_putc : ℕ → Screen × Device → Screen × Device
  cons_putc c (s, d) = cga_putc c (s, lpt_putc c (serial_putc c d))

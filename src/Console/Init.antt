-- ===== src/Console/Init.antt =====
-- The initialisation of the serial port and the display in kern/console.c, and a read of the serial port.
use Prim.Native.Nat.{bit_and, bit_or}
use vukernelprogramming.Prelude.{ℕ, ◌+◌, ◌*◌, ◌%◌, ◌^◌, Bool, not, ◌==◌, if◌then◌else◌}
use vukernelprogramming.Prelude.Int.{ℤ, pos, negsuc}
use vukernelprogramming.Ports.{Ports}
use vukernelprogramming.Pmap.Address.{kernbase}

-- crt_buf as an address, crt_pos and addr_6845
pub record Display : Type 0 where
  pub crt_buf : ℕ
  pub crt_pos : ℕ
  pub addr_6845 : ℕ

-- the addresses and ports of the two kinds of display
abbrev mono_buf : ℕ
mono_buf = 0xB0000

abbrev mono_base : ℕ
mono_base = 0x3B4

abbrev cga_buf : ℕ
cga_buf = 0xB8000

abbrev cga_base : ℕ
cga_base = 0x3D4

module _ (ports : Ports) where
  open ports use {Device, inb, outb}

  -- no byte is -1
  unfoldable pub serial_proc_data : Device → ℤ × Device
  serial_proc_data d =
      let (status, d1) = inb 0x3FD d in
      if bit_and status 0x01 == 0
      then (negsuc 0, d1)
      else (let (data_byte, d2) = inb 0x3F8 d1 in (pos data_byte, d2))

  -- serial_exists, and the device behind the writes
  unfoldable pub serial_init : Device → Bool × Device
  serial_init d =
      let set = outb 0x3F9 0x01 (
        outb 0x3FC 0
          (outb 0x3FB 0x03 (outb 0x3F9 0 (outb 0x3F8 12 (outb 0x3FB 0x80 (outb 0x3FA 0 d)))))) in
      let (status, d1) = inb 0x3FD set in (not (status == 0xFF), (inb 0x3F8 (inb 0x3FA d1).1).1)

  -- volatile reads and writes of 16-bit cells of the display's memory are arguments
  module _ (peek : ℕ → Device → ℕ × Device) (poke : ℕ → ℕ → Device → Device) where
    -- the type of the display: the buffer, the port, and the device behind the test
    unfoldable pub find_display : Device → ℕ × ℕ × Device
    find_display d =
        let (was, d1) = peek (kernbase + cga_buf) d in
        let (now, d2) = peek (kernbase + cga_buf) (poke (kernbase + cga_buf) 0xA55A d1) in
        if now == 0xA55A
        then (kernbase + cga_buf, cga_base, poke (kernbase + cga_buf) was d2)
        else (kernbase + mono_buf, mono_base, d2)

    unfoldable pub cga_init : Device → Display × Device
    unfolding find_display
    cga_init d =
        let (cp, addr, d1) = find_display d in
        let (hi, d2) = inb (addr + 1) (outb addr 14 d1) in
        let (lo, d3) = inb (addr + 1) (outb addr 15 d2) in
        (record { crt_buf = cp; crt_pos = bit_or (hi * 2 ^ 8) lo % 2 ^ 16; addr_6845 = addr }, d3)

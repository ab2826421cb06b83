-- ===== src/Console/Keyboard.antt =====
-- The keyboard driver of kern/console.c with the key codes of inc/kbdreg.h.
pub mod Maps
pub mod Decode
pub mod Poll
use Prim.Native.Nat.{bit_and, bit_or, bit_xor}
use vukernelprogramming.Prelude.{
  ℕ, ◌+◌, ◌-◌, ◌^◌, Bool, true, false, ◌&&◌, not, leb, ◌==◌, if◌then◌else◌,
}
use vukernelprogramming.Prelude.Int.{ℤ, pos, negsuc}
use vukernelprogramming.Ports.{Ports}
use vukernelprogramming.Console.Keyboard.Maps.{
  shiftcode, togglecode, charcode, shift_bit, ctl, alt, capslock, e0esc, key_del,
}

-- a & ~b, on 32 bits
abbrev pub and_not : ℕ → ℕ → ℕ
and_not a b = bit_and a (2 ^ 32 - 1 - b)

abbrev pub any_bit : ℕ → ℕ → Bool
any_bit a b = not (bit_and a b == 0)

pub record Key : Type 0 where
  pub code : ℕ
  pub shift : ℕ
  pub reboot : Bool

-- 'a' <= c && c <= 'z', and the other way round, under CAPSLOCK
swap_case : ℕ → ℕ → ℕ
swap_case shift c =
    if any_bit shift capslock
    then (if leb b'a' c && leb c b'z'
        then c + b'A' - b'a'
        else if leb b'A' c && leb c b'Z'
        then c + b'a' - b'A'
        else c)
    else c

-- a key pressed: the character and the state of the modifiers
press : ℕ → ℕ → Key
press code shift0 =
    let shift = bit_xor (bit_or shift0 (shiftcode code)) (togglecode code) in
    let c = swap_case shift (charcode (bit_and shift (bit_or ctl shift_bit)) code) in
    record {
      code = c;
      shift = shift;
      reboot = (bit_and (2 ^ 32 - 1 - shift) (bit_or ctl alt) == 0) && (c == key_del);
    }

-- a scan code read from the keyboard
unfoldable pub decode : ℕ → ℕ → Key
unfolding swap_case press
decode code shift =
    if code == 0xE0
    then record { code = 0; shift = bit_or shift e0esc; reboot = false }
    else if any_bit code 0x80
    then (let released = if any_bit shift e0esc then code else bit_and code 0x7F in
        record {
          code = 0;
          shift = and_not shift (bit_or (shiftcode released) e0esc);
          reboot = false;
        })
    else if any_bit shift e0esc
    then press (bit_or code 0x80) (and_not shift e0esc)
    else press code shift

module _ (ports : Ports) where
  open ports use {Device, inb, outb}

  -- the message of a reboot, then the write to the reset port; `print` is cprintf
  unfoldable pub reboot_if : Bool → (Device → Device) → Device → Device
  reboot_if b print d = if b then outb 0x92 3 (print d) else d

  unfoldable pub kbd_proc_data : (Device → Device) → Device × ℕ → ℤ × (Device × ℕ)
  unfolding reboot_if
  kbd_proc_data print (d, shift) =
      let (status, d1) = inb 0x64 d in
      if bit_and status 1 == 0
      then (negsuc 0, (d1, shift))
      else (let (code, d2) = inb 0x60 d1 in
          let k = decode code shift in (pos k.code, (reboot_if k.reboot print d2, k.shift)))

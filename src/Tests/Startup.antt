-- ===== src/Tests/Startup.antt =====
-- boot/main.c with a small disk, and kern/entrypgdir.c.
use vukernelprogramming.Prelude.{
  ℕ, ◌+◌, ◌-◌, ◌*◌, ◌%◌, ◌^◌, ◌<◌, ◌≡◌, refl, none, some, ltb, ◌==◌, if◌then◌else◌, arith,
}
use vukernelprogramming.Memory.{Mem, within}
use vukernelprogramming.Ports.{Ports}
use vukernelprogramming.Boot.{waitdisk, bootmain, spin, elfhdr}
use vukernelprogramming.Boot.Segment.{IsDisk}
use vukernelprogramming.Boot.Start.{bootmain-refuses}
use vukernelprogramming.Pmap.Address.{kernbase}
use vukernelprogramming.Pmap.Entry.{entry_pgdir, translate, entry-translate}

-- the registers of the disk that hold the sector's number
abbrev Registers : Type 0
Registers = ℕ × ℕ × ℕ × ℕ

abbrev set_register : ℕ → ℕ → Registers → Registers
set_register port v (a, b, c, h) =
    if port == 0x1F3
    then (v, b, c, h)
    else if port == 0x1F4
    then (a, v, c, h)
    else if port == 0x1F5
    then (a, b, v, h)
    else if port == 0x1F6
    then (a, b, c, v)
    else (a, b, c, h)

abbrev drive : Ports
drive = record { Device = Registers; inb = λ port d. (0x40, d); outb = set_register }

abbrev sector : Registers → ℕ
sector (a, b, c, h) = (a + b * 2 ^ 8 + c * 2 ^ 16 + (h - 0xE0) * 2 ^ 24) * 512

-- the byte at `i` of the disk
abbrev bytes : ℕ → ℕ
bytes i = i % 251

abbrev input : ℕ → ℕ → ℕ → Mem × Registers → Mem × Registers
input port dst n (m, d) =
    ((λ a. if within dst (n * 4) a then bytes (sector d + (a - dst)) else m a), d)

drive_ready :
    (d : Registers) → (d' : Registers) × (waitdisk drive 1 d ≡ some d') × (sector d' ≡ sector d)
unfolding waitdisk
drive_ready d = (d, refl, refl)

abbrev is_disk : IsDisk drive input 1 bytes
is_disk = record {
  place = sector;
  ready = drive_ready;
  lba = λ a b c h d p q r s. omega arith;
  delivers = λ dst m d a. refl;
}

entry-translate_example : translate (entry_pgdir 0xF0112000) (0xF0112000 - kernbase) 0xF0100020 ≡ (
    if ltb 0xF0100020 (2 ^ 22)
    then some 0xF0100020
    else if within kernbase (2 ^ 22) 0xF0100020
    then some (0xF0100020 - kernbase)
    else none)
entry-translate_example =
    entry-translate 0xF0112000 0xF0100020 refl (omega arith) (omega arith) (omega arith)

bootmain-refuses_example :
    (m' : Mem) × (d' : Registers) × (bootmain drive input 1 11
        (λ port v d. d)
        ((λ a. 0), (0, 0, 0, 0))
      ≡ some (spin, m', d'))
    × ((i : ℕ) → i < 4096 → m' (elfhdr + i) ≡ bytes (512 + i))
    × ((a : ℕ) → a < elfhdr → m' a ≡ 0)
bootmain-refuses_example =
    bootmain-refuses drive input 1 bytes is_disk 11 (λ port v d. d) (λ a. 0) (0, 0, 0, 0)
      (omega arith) (omega arith)

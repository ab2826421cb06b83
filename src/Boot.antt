-- ===== src/Boot.antt =====
-- boot/main.c: reading the kernel from the disk. Besides the ports, the string input instruction
-- `insl` is an argument: from a port to an address, a number of words.
pub mod Segment
pub mod Start
pub mod Loads
pub mod Disk
use Prim.Native.Nat.{bit_and, bit_or}
use vukernelprogramming.Prelude.{
  ℕ, zero, suc, ◌+◌, ◌-◌, ◌*◌, ◌/◌, ◌%◌, ◌^◌, Option, none, some, ltb, ◌==◌, if◌then◌else◌,
}
use vukernelprogramming.Memory.{Mem}
use vukernelprogramming.Ports.{Ports}

-- `char`s of memory as a uint16_t and a uint32_t, the least significant first
abbrev pub word16 : Mem → ℕ → ℕ
word16 m a = m a + m (a + 1) * 2 ^ 8

abbrev pub word32 : Mem → ℕ → ℕ
word32 m a = word16 m a + word16 m (a + 2) * 2 ^ 16

abbrev pub elfhdr : ℕ
elfhdr = 0x10000

abbrev pub elf_magic : ℕ
elf_magic = 0x464C457F

-- the fields of struct elf and struct elf_proghdr that the loader reads
abbrev pub e_magic : Mem → ℕ
e_magic m = word32 m elfhdr

abbrev pub e_entry : Mem → ℕ
e_entry m = word32 m (elfhdr + 24)

abbrev pub e_phoff : Mem → ℕ
e_phoff m = word32 m (elfhdr + 28)

abbrev pub e_phnum : Mem → ℕ
e_phnum m = word16 m (elfhdr + 44)

abbrev pub p_offset : Mem → ℕ → ℕ
p_offset m ph = word32 m (ph + 4)

abbrev pub p_pa : Mem → ℕ → ℕ
p_pa m ph = word32 m (ph + 12)

abbrev pub p_memsz : Mem → ℕ → ℕ
p_memsz m ph = word32 m (ph + 20)

-- how the boot loader ends: it calls the entry point, or it spins
pub data Booted : Type 0 where
  enter : ℕ → Booted
  spin : Booted

abbrev pub sectsize : ℕ
sectsize = 512

module _ (ports : Ports) where
  open ports use {Device, inb, outb}

  -- while ((inb(0x1F7) & 0xC0) != 0x40)
  unfoldable pub waitdisk : ℕ → Device → Option Device
  waitdisk zero d = none
  waitdisk (suc f) d =
      let rest = waitdisk f (inb 0x1F7 d).1 in
      if bit_and (inb 0x1F7 d).0 0xC0 == 0x40 then some (inb 0x1F7 d).1 else rest

  -- the writes of readsect: one sector, its number, and the command to read
  unfoldable pub command : ℕ → Device → Device
  command offset d = outb 0x1F7 0x20 (
      outb 0x1F6 (bit_or (offset / 2 ^ 24) 0xE0 % 2 ^ 8) (
        outb 0x1F5 (offset / 2 ^ 16 % 2 ^ 8)
          (outb 0x1F4 (offset / 2 ^ 8 % 2 ^ 8) (outb 0x1F3 (offset % 2 ^ 8) (outb 0x1F2 1 d)))))

  module _ (insl : ℕ → ℕ → ℕ → Mem × Device → Mem × Device) (f : ℕ) where
    -- `f` is the fuel of each wait
    unfoldable pub readsect : ℕ → ℕ → Mem × Device → Option (Mem × Device)
    unfolding waitdisk command
    readsect dst offset (m, d) = elim (waitdisk f d) [
      | none ↦ none
      | some d1 ↦ elim (waitdisk f (command offset d1)) [
        | none ↦ none
        | some d2 ↦ some (insl 0x1F0 dst (sectsize / 4) (m, d2))
      ]
    ]

    -- while (pa < end_pa)
    unfoldable pub readseg_loop : ℕ → ℕ → ℕ → ℕ → Mem × Device → Option (Mem × Device)
    unfolding readsect
    readseg_loop zero pa end_pa offset x = none
    readseg_loop (suc g) pa end_pa offset x =
        let rest : Option (Mem × Device) = elim (readsect pa offset x) [
          | none ↦ none
          | some x' ↦ readseg_loop g ((pa + sectsize) % 2 ^ 32) end_pa ((offset + 1) % 2 ^ 32) x'
        ] in
        if ltb pa end_pa then rest else some x

    -- the fuel of the loop, then pa, count and offset
    unfoldable pub readseg : ℕ → ℕ → ℕ → ℕ → Mem × Device → Option (Mem × Device)
    unfolding readseg_loop
    readseg g pa count offset x =
        readseg_loop g (pa - pa % sectsize) ((pa + count) % 2 ^ 32) (offset / sectsize + 1) x

    -- for (; ph < eph; ph++), with `n` headers left; a header is 32 bytes long
    unfoldable pub load_segments : ℕ → ℕ → ℕ → Mem × Device → Option (Mem × Device)
    unfolding readseg
    load_segments g zero ph x = some x
    load_segments g (suc n) ph (m, d) =
        elim (readseg g (p_pa m ph) (p_memsz m ph) (p_offset m ph) (m, d)) [
          | none ↦ none
          | some x' ↦ load_segments g n (ph + 32) x'
        ]

    -- `outw` is the instruction that writes 16 bits to a port
    unfoldable pub bootmain :
        ℕ → (ℕ → ℕ → Device → Device) → Mem × Device → Option (Booted × Mem × Device)
    unfolding load_segments
    bootmain g outw x = elim (readseg g elfhdr (sectsize * 8) 0 x) [
      | none ↦ none
      | some (m, d) ↦
          let loaded : Option (Booted × Mem × Device) =
            elim (load_segments g (e_phnum m) (elfhdr + e_phoff m) (m, d)) [
              | none ↦ none
              | some (m', d') ↦ some (enter (e_entry m'), m', d')
            ] in
          if e_magic m == elf_magic
          then loaded
          else some (spin, m, outw 0x8A00 0x8E00 (outw 0x8A00 0x8A00 d))
    ]

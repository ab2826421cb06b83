-- ===== src/Boot/Start.antt =====
-- bootmain of boot/main.c refuses a disk without an ELF image.
use vukernelprogramming.Prelude.{ℕ, ◌+◌, ◌<◌, ◌≡◌, ◌≢◌, refl, false, some, ◌==◌, arith, ap, ◌∙◌}
use vukernelprogramming.Memory.{Mem}
use vukernelprogramming.Ports.{Ports}
use vukernelprogramming.Boot.{readseg, bootmain, spin, word32, e_magic, elf_magic, elfhdr}
use vukernelprogramming.Boot.Segment.{IsDisk, readseg-image}

pub word32-same :
    (m m' : Mem) (a b : ℕ) → ((i : ℕ) → i < 4 → m (a + i) ≡ m' (b + i)) → word32 m a ≡ word32 m' b
word32-same m m' a b h = ground (arith, h 0, h 1, h 2, h 3)

module _ (ports : Ports) (insl : ℕ → ℕ → ℕ → Mem × ports.Device → Mem × ports.Device) (f : ℕ)
    (disk : ℕ → ℕ) (is_disk : IsDisk ports insl f disk) where
  open ports use {Device}

  bootmain-no_magic :
      (g : ℕ) (outw : ℕ → ℕ → Device → Device) (x : Mem × Device) (m : Mem) (d : Device)
      → readseg ports insl f g elfhdr 4096 0 x ≡ some (m, d)
      → (e_magic m == elf_magic) ≡ false
      → bootmain ports insl f g outw x ≡ some (spin, m, outw 0x8A00 0x8E00 (outw 0x8A00 0x8A00 d))
  unfolding bootmain
  bootmain-no_magic g outw x m d e other = rw (e, bootmain) (rw other refl)

  -- If the four bytes of the kernel image at the start of sector 1 are not the magic number of an
  -- ELF file, bootmain has loaded the first page of the image and changed no memory below it; it
  -- writes to the debug port and spins.
  pub bootmain-refuses :
      (g : ℕ) (outw : ℕ → ℕ → Device → Device) (m : Mem) (d : Device)
      → 10 < g
      → word32 disk 512 ≢ elf_magic
      → (m' : Mem) × (d' : Device) × (bootmain ports insl f g outw (m, d)
          ≡ some (spin, m', outw 0x8A00 0x8E00 (outw 0x8A00 0x8A00 d')))
        × ((i : ℕ) → i < 4096 → m' (elfhdr + i) ≡ disk (512 + i))
        × ((a : ℕ) → a < elfhdr → m' a ≡ m a)
  bootmain-refuses g outw m d fuel other =
      let (m', d', run, h, below, above) =
        readseg-image ports insl f disk is_disk g elfhdr 4096 0 m d (omega arith) (omega arith)
          (omega arith) refl in
      let page : (i : ℕ) → i < 4096 → m' (elfhdr + i) ≡ disk (512 + i) =
        λ i l. h (elfhdr + i) (omega arith) (omega arith) ∙ ap disk (omega arith) in
      let magic : word32 m' elfhdr ≡ word32 disk 512 =
        word32-same m' disk elfhdr 512 (λ i l. page i (omega arith)) in
      (
        m',
        d',
        bootmain-no_magic g outw (m, d) m' d' run (ground arith),
        page,
        λ a l. below a (omega arith),
      )

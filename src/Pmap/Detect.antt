-- ===== src/Pmap/Detect.antt =====
-- kern/kclock.c, and the detection of the memory size in kern/pmap.c.
use Prim.Native.Nat.{bit_or}
use Prim.Native.String.{String}
use vukernelprogramming.Printf.Events.{Event, told}
use vukernelprogramming.Prelude.{
  ℕ, List, [], ◌∷◌, ◌%◌, ◌+◌, ◌*◌, ◌/◌, ◌^◌, ◌≤◌, ◌<◌, ◌==◌, if◌then◌else◌, arith,
}
use vukernelprogramming.Ports.{Ports}
use vukernelprogramming.Pmap.Address.{pgsize, extphysmem}

abbrev pub nvram_baselo : ℕ
nvram_baselo = 0x15

abbrev pub nvram_extlo : ℕ
nvram_extlo = 0x17

pub record Memory : Type 0 where
  pub npages : ℕ
  pub npages_basemem : ℕ

-- the sizes, from the two numbers of kilobytes that the clock chip's memory holds
unfoldable pub sizes : ℕ → ℕ → Memory
sizes base ext =
    let npages_basemem = base * 1024 / pgsize in
    let npages_extmem = ext * 1024 / pgsize in
    record {
      npages = if npages_extmem == 0 then npages_basemem else extphysmem / pgsize + npages_extmem;
      npages_basemem = npages_basemem;
    }

abbrev pub memory_format : String
memory_format = "Physical memory: %uK available, base = %uK, extended = %uK\n"

-- the arguments of the message, with the number of pages of extended memory; a product is a size_t
abbrev pub kilobytes : Memory → ℕ → List ℕ
kilobytes m npages_extmem =
    (m.npages * pgsize % 2 ^ 32 / 1024)
    ∷ (m.npages_basemem * pgsize % 2 ^ 32 / 1024)
    ∷ (npages_extmem * pgsize % 2 ^ 32 / 1024)
    ∷ []

module _ (ports : Ports) where
  open ports use {Device, inb, outb}

  unfoldable pub mc146818_read : ℕ → Device → ℕ × Device
  mc146818_read reg d = inb 0x71 (outb 0x70 reg d)

  unfoldable pub mc146818_write : ℕ → ℕ → Device → Device
  mc146818_write reg datum d = outb 0x71 datum (outb 0x70 reg d)

  -- the low byte, then the high byte
  unfoldable pub nvram_read : ℕ → Device → ℕ × Device
  unfolding mc146818_read
  nvram_read r d =
      let (lo, d1) = mc146818_read r d in
      let (hi, d2) = mc146818_read (r + 1) d1 in (bit_or lo (hi * 2 ^ 8), d2)

  -- with its call of cprintf
  unfoldable pub i386_detect_memory : Device → Memory × List Event × Device
  unfolding nvram_read sizes
  i386_detect_memory d =
      let (base, d1) = nvram_read nvram_baselo d in
      let (ext, d2) = nvram_read nvram_extlo d1 in
      let memory = sizes base ext in
      (memory, told memory_format (kilobytes memory (ext * 1024 / pgsize)) ∷ [], d2)

-- For the 16-bit sizes that the chip holds, the number of pages is that of the base memory alone
-- where there is less than a page of extended memory, else it counts the first megabyte and the
-- extended memory; base memory of at most 640 KB ends below the hole for devices, and no page lies
-- beyond 65 MB.
pub sizes_bounds :
    (base ext : ℕ)
    → base ≤ 640
    → ext < 2 ^ 16
    → ((sizes base ext).npages_basemem * 4096 ≤ 0xA0000)
      × ((sizes base ext).npages_basemem ≤ (sizes base ext).npages)
      × ((sizes base ext).npages * 4096 ≤ 65 * 2 ^ 20)
      × (4 ≤ ext
          → ((sizes base ext).npages * 4096 ≤ 0x100000 + ext * 1024)
            × (0x100000 + ext * 1024 < (sizes base ext).npages * 4096 + 4096))
unfolding sizes
sizes_bounds base ext h k = ground arith

-- ===== src/Init/Starts.antt =====
-- The start of the kernel ends in the panic of mem_init, whatever the memory held.
use vukernelprogramming.Prelude.{
  ℕ, ◌*◌, ◌/◌, ◌+◌, ◌-◌, ◌^◌, ◌<◌, ◌≤◌, ◌⊎◌, ◌≡◌, Bool, List, [], ◌∷◌, ◌==◌, if◌then◌else◌,
}
use vukernelprogramming.Memory.{Mem, within}
use vukernelprogramming.Ports.{Ports}
use vukernelprogramming.Pmap.Detect.{nvram_read}
use vukernelprogramming.Printf.Events.{Event, told}
use vukernelprogramming.Init.{Layout}

-- the memory behind the start: 0 in [edata, end) but at panicstr, and as before elsewhere
abbrev pub Cleared : Layout → Mem → Mem → Type 0
Cleared s m m' =
    (a : ℕ)
    → (a < s.panicstr) ⊎ (s.panicstr + 4 ≤ a)
    → m' a ≡ (if within s.edata (s.end_ - s.edata) a then 0 else m a)

-- the complaint of cons_init
abbrev pub serial_events : Bool → List Event
serial_events serial_exists =
    if serial_exists then [] else (told "Serial port does not exist!\n" [] ∷ [])

-- the message on the memory size, in kilobytes: base memory and extended memory in whole pages of 4
-- KB, and all of it, which counts the first megabyte where there is a page of extended memory
abbrev pub memory_events : ℕ → ℕ → List Event
memory_events base ext =
    told "Physical memory: %uK available, base = %uK, extended = %uK\n" (
      (if ext / 4 == 0 then base / 4 * 4 else 1024 + ext / 4 * 4)
      ∷ (base / 4 * 4)
      ∷ (ext / 4 * 4)
      ∷ [])
    ∷ []

module _ (ports : Ports) (peek : ℕ → ports.Device → ℕ × ports.Device)
    (poke : ℕ → ℕ → ports.Device → ports.Device) where
  -- the two bytes of the clock chip make a number of 16 bits
  abbrev pub Sized : Type 0
  Sized = (r : ℕ) (d : ports.Device) → (nvram_read ports r d).0 < 2 ^ 16

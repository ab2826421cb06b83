-- ===== src/Tests/Loading.antt =====
-- bootmain on a disk with an ELF image of two segments, read by insl.
use vukernelprogramming.Prelude.{
  ℕ, ◌+◌, ◌-◌, ◌*◌, ◌/◌, ◌%◌, ◌^◌, ◌≤◌, ◌<◌, ◌≡◌, ◌⊎◌, inl, refl, some, List, [], ◌∷◌, ◌==◌,
  if◌then◌else◌, arith,
}
use vukernelprogramming.Memory.{Mem}
use vukernelprogramming.Ports.{Ports}
use vukernelprogramming.Ports.Strings.{insl, unit_of, Stream}
use vukernelprogramming.Boot.{waitdisk, bootmain, enter, elfhdr}
use vukernelprogramming.Boot.Disk.{IsController, insl-IsDisk}
use vukernelprogramming.Boot.Loads.{Header, OutsideAll, Loaded, bootmain-loads}

-- the words of the image that are not 7, by their place on the disk
abbrev words : ℕ → ℕ
words w =
    if w == 512
    then 0x464C457F
    else if w == 536
    then 0x10000C
    else if w == 540
    then 52
    else if w == 556
    then 2
    else if w == 568
    then 0x1000
    else if w == 576
    then 0x100000
    else if w == 584
    then 700
    else if w == 600
    then 0x2000
    else if w == 608
    then 0x101000
    else if w == 616
    then 100
    else 7

abbrev image : ℕ → ℕ
image i = words (i / 4 * 4) / 256 ^ (i % 4) % 2 ^ 8

-- the registers with the sector's number, and where the next word is read
pub record Controller : Type 0 where
  pub low : ℕ
  pub mid : ℕ
  pub high : ℕ
  pub drive : ℕ
  pub place : ℕ

abbrev set_port : ℕ → ℕ → Controller → Controller
set_port port v c =
    if port == 0x1F3
    then record c { low = v }
    else if port == 0x1F4
    then record c { mid = v }
    else if port == 0x1F5
    then record c { high = v }
    else if port == 0x1F6
    then record c { drive = v }
    else if port == 0x1F7
    then record c {
      place = (c.low + c.mid * 2 ^ 8 + c.high * 2 ^ 16 + (c.drive - 0xE0) * 2 ^ 24) * 512;
    }
    else c

abbrev controller : Ports
controller = record { Device = Controller; inb = λ port c. (0x40, c); outb = set_port }

abbrev next_word : ℕ → Controller → ℕ × Controller
next_word port c = (unit_of 4 image c.place, record c { place = c.place + 4 })

controller_ready :
    (c : Controller)
    → (c' : Controller) × (waitdisk controller 1 c ≡ some c') × (c'.place ≡ c.place)
unfolding waitdisk
controller_ready c = (c, refl, refl)

image-Stream : Stream next_word 0x1F0 image (λ c. c.place)
image-Stream = record { small = λ i. omega arith; word = λ d. refl; next = λ d. refl }

is_controller : IsController controller next_word 1 image
is_controller = record {
  place = λ c. c.place;
  ready = controller_ready;
  lba = λ a b c h d p q r s. omega arith;
  stream = image-Stream;
}

abbrev headers : List Header
headers =
    record { offset = 0x1000; pa = 0x100000; memsz = 700 }
    ∷ record { offset = 0x2000; pa = 0x101000; memsz = 100 }
    ∷ []

abbrev idle : Controller
idle = record { low = 0; mid = 0; high = 0; drive = 0; place = 0 }

bootmain-loads_example :
    (m' : Mem) × (d' : Controller) × (bootmain controller
        (insl next_word)
        1
        11
        (λ port v d. d)
        ((λ a. 0), idle)
      ≡ some (enter 0x10000C, m', d'))
    × Loaded image headers m'
    × ((a : ℕ) → OutsideAll headers a → (a < elfhdr) ⊎ (elfhdr + 4096 + 511 ≤ a) → m' a ≡ 0)
bootmain-loads_example =
    bootmain-loads controller (insl next_word) 1 image
      (insl-IsDisk controller next_word 1 image is_controller) 11 (λ port v d. d) headers 52
      (λ a. 0) idle (omega arith) refl refl refl (refl, refl, refl, (refl, refl, refl, tt))
      (omega arith)
      (
        omega arith,
        omega arith,
        omega arith,
        refl,
        inl (omega arith),
        (inl (omega arith), tt),
        (omega arith, omega arith, omega arith, refl, inl (omega arith), tt, tt),
      )

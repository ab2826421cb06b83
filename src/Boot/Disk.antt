-- ===== src/Boot/Disk.antt =====
-- The disk of boot/main.c behind the loop of insl: its controller delivers a sector by words.
use vukernelprogramming.Prelude.{ℕ, ◌+◌, ◌*◌, ◌^◌, ◌<◌, ◌≡◌, some}
use vukernelprogramming.Ports.{Ports}
use vukernelprogramming.Ports.Strings.{insl, Stream, insl-block}
use vukernelprogramming.Boot.{waitdisk}
use vukernelprogramming.Boot.Segment.{IsDisk}

-- A controller with the bytes `disk`: it gets ready within `f` polls, stands at the start of the
-- sector that a command asks for, and gives the words from there on.
pub record IsController (ports : Ports) (inp : ℕ → ports.Device → ℕ × ports.Device) (f : ℕ)
    (disk : ℕ → ℕ) : Type 0 where
  pub place : ports.Device → ℕ
  pub ready :
      (d : ports.Device)
      → (d' : ports.Device) × (waitdisk ports f d ≡ some d') × (place d' ≡ place d)
  pub lba :
      (a b c h : ℕ) (d : ports.Device)
      → a < 256
      → b < 256
      → c < 256
      → h < 16
      → place (
          ports.outb 0x1F7 0x20 (
            ports.outb 0x1F6 (h + 0xE0) (
              ports.outb 0x1F5 c (ports.outb 0x1F4 b (ports.outb 0x1F3 a (ports.outb 0x1F2 1 d))))))
        ≡ (a + b * 2 ^ 8 + c * 2 ^ 16 + h * 2 ^ 24) * 512
  pub stream : Stream inp 0x1F0 disk place

-- A controller that delivers words is a disk that delivers sectors, by insl.
pub insl-IsDisk :
    (ports : Ports) (inp : ℕ → ports.Device → ℕ × ports.Device) (f : ℕ) (disk : ℕ → ℕ)
    → IsController ports inp f disk
    → IsDisk ports (insl inp) f disk
insl-IsDisk ports inp f disk c = record {
  place = c.place;
  ready = c.ready;
  lba = c.lba;
  delivers = λ dst m d a. insl-block inp 0x1F0 disk c.place c.stream dst 128 m d a;
}

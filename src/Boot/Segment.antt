-- ===== src/Boot/Segment.antt =====
-- readseg of boot/main.c brings the sectors of a segment from the disk to their place.
use Prim.Native.Nat.{bit_or}
use vukernelprogramming.Prelude.{
  ℕ, zero, suc, ◌+◌, ◌-◌, ◌*◌, ◌/◌, ◌%◌, ◌^◌, ◌<◌, ◌≤◌, ◌≡◌, refl, true, false, some, ltb, ◌==◌,
  if◌then◌else◌, arith, passes, passes-at, ==_iff, Bool-cases, inl, inr, ◌∙◌, ap,
}
use vukernelprogramming.Memory.{Mem, within}
use vukernelprogramming.Ports.{Ports}
use vukernelprogramming.Boot.{waitdisk, command, readsect, readseg_loop, readseg}

-- a disk with the bytes `disk`: it gets ready within `f` polls, keeps the place of the sector asked
-- for, and delivers that sector
pub record IsDisk (ports : Ports) (insl : ℕ → ℕ → ℕ → Mem × ports.Device → Mem × ports.Device)
    (f : ℕ) (disk : ℕ → ℕ) : Type 0 where
  pub place : ports.Device → ℕ
  pub ready :
      (d : ports.Device)
      → (d' : ports.Device) × (waitdisk ports f d ≡ some d') × (place d' ≡ place d)
  pub lba :
      (a b c h : ℕ) (d : ports.Device)
      → a < 256
      → b < 256
      → c < 256
      → h < 16
      → place (
          ports.outb 0x1F7 0x20 (
            ports.outb 0x1F6 (h + 0xE0) (
              ports.outb 0x1F5 c (ports.outb 0x1F4 b (ports.outb 0x1F3 a (ports.outb 0x1F2 1 d))))))
        ≡ (a + b * 2 ^ 8 + c * 2 ^ 16 + h * 2 ^ 24) * 512
  pub delivers :
      (dst : ℕ) (m : Mem) (d : ports.Device) (a : ℕ)
      → (insl 0x1F0 dst 128 (m, d)).0 a
        ≡ (if within dst 512 a then disk (place d + (a - dst)) else m a)

drive_all : passes (λ h. bit_or h 0xE0 % 256 == h + 0xE0) 16 ≡ true
unfolding passes
drive_all = refl

drive-eq : (h : ℕ) → h < 16 → bit_or h 0xE0 % 256 ≡ h + 0xE0
drive-eq h l =
    (==_iff (bit_or h 0xE0 % 256) (h + 0xE0)).0
      (passes-at (λ h. bit_or h 0xE0 % 256 == h + 0xE0) 16 h l drive_all)

module _ (ports : Ports) (insl : ℕ → ℕ → ℕ → Mem × ports.Device → Mem × ports.Device) (f : ℕ)
    (disk : ℕ → ℕ) (is_disk : IsDisk ports insl f disk) where
  open ports use {Device}
  open is_disk use {place, ready, lba, delivers}

  place-command :
      (offset : ℕ) (d : Device) → offset < 2 ^ 28 → place (command ports offset d) ≡ offset * 512
  unfolding command
  place-command offset d h =
      let low : offset / 2 ^ 24 < 16 = omega arith in
      rw (drive-eq (offset / 2 ^ 24) low, command)
        (lba (offset % 2 ^ 8) (offset / 2 ^ 8 % 2 ^ 8) (offset / 2 ^ 16 % 2 ^ 8) (offset / 2 ^ 24) d
            (omega arith) (omega arith) (omega arith) low
          ∙ omega arith)

  -- one sector at `dst`, and the rest of the memory as it was
  readsect-sector :
      (dst offset : ℕ) (m : Mem) (d : Device)
      → offset < 2 ^ 28
      → (m' : Mem) × (d' : Device) × (readsect ports insl f dst offset (m, d) ≡ some (m', d'))
        × ((a : ℕ) → m' a ≡ (if within dst 512 a then disk (offset * 512 + (a - dst)) else m a))
  unfolding readsect
  readsect-sector dst offset m d h =
      let (d1, e1, s1) = ready d in
      let (d2, e2, s2) = ready (command ports offset d1) in
      let e = s2 ∙ place-command offset d1 h in
      (
        (insl 0x1F0 dst 128 (m, d2)).0,
        (insl 0x1F0 dst 128 (m, d2)).1,
        rw (e1, e2, readsect) refl,
        λ a.
            delivers dst m d2 a
            ∙ ap (λ k. if within dst 512 a then disk (k + (a - dst)) else m a) e,
      )

  -- the bytes that `n` sectors from the sector `offset` bring to `pa`
  abbrev Sectors : ℕ → ℕ → ℕ → Mem → Mem → Type 0
  Sectors n pa offset m m' =
      (a : ℕ) → m' a ≡ (if within pa (512 * n) a then disk (offset * 512 + (a - pa)) else m a)

  Sectors-suc :
      (n pa offset : ℕ) (m m1 m' : Mem)
      → ((a : ℕ) → m1 a ≡ (if within pa 512 a then disk (offset * 512 + (a - pa)) else m a))
      → Sectors n (pa + 512) (offset + 1) m1 m'
      → Sectors (suc n) pa offset m m'
  Sectors-suc n pa offset m m1 m' first rest a =
      let r = rest a in
      let e = first a in
      elim (Bool-cases (within (pa + 512) (512 * n) a)) [
        | inl behind ↦
            let k : (offset + 1) * 512 + (a - (pa + 512)) ≡ offset * 512 + (a - pa) =
              ground arith in
            let i : within pa (512 * suc n) a ≡ true = ground arith in r ∙ rw (behind, i, k) refl
        | inr before ↦
            let i : within pa (512 * suc n) a ≡ within pa 512 a = ground arith in
            r ∙ rw (before, i) e
      ]

  readseg_loop-on :
      (g pa end_pa offset : ℕ) (x x' : Mem × Device)
      → readsect ports insl f pa offset x ≡ some x'
      → pa < end_pa
      → pa + 512 < 2 ^ 32
      → offset + 1 < 2 ^ 32
      → readseg_loop ports insl f (suc g) pa end_pa offset x
        ≡ readseg_loop ports insl f g (pa + 512) end_pa (offset + 1) x'
  unfolding readseg_loop
  readseg_loop-on g pa end_pa offset x x' e h k l =
      let on : ltb pa end_pa ≡ true = ground arith in
      let next : (pa + 512) % 2 ^ 32 ≡ pa + 512 = omega arith in
      let count : (offset + 1) % 2 ^ 32 ≡ offset + 1 = omega arith in
      rw (on, e, next, count, readseg_loop) refl

  readseg_loop-Sectors :
      (n g pa end_pa offset : ℕ) (m : Mem) (d : Device)
      → n < g
      → end_pa ≤ pa + 512 * n
      → pa + 512 * n < end_pa + 512
      → pa + 512 * n < 2 ^ 32
      → offset + n < 2 ^ 28
      → (m' : Mem) × (d' : Device) × (readseg_loop ports insl f g pa end_pa offset (m, d)
          ≡ some (m', d'))
        × Sectors n pa offset m m'
  unfolding readseg_loop
  readseg_loop-Sectors n zero pa end_pa offset m d fuel lo hi no_wrap small = absurd (omega arith)
  readseg_loop-Sectors zero (suc g) pa end_pa offset m d fuel lo hi no_wrap small =
      let over : ltb pa end_pa ≡ false = ground arith in (m, d, rw over refl, λ a. ground arith)
  readseg_loop-Sectors (suc n) (suc g) pa end_pa offset m d fuel lo hi no_wrap small =
      let (m1, d1, e, first) = readsect-sector pa offset m d (omega arith) in
      let (m', d', run, rest) =
        readseg_loop-Sectors n g (pa + 512) end_pa (offset + 1) m1 d1 (omega arith) (omega arith)
          (omega arith) (omega arith) (omega arith) in
      (
        m',
        d',
        readseg_loop-on g pa end_pa offset (m, d) (m1, d1) e (omega arith) (omega arith)
              (omega arith)
            ∙ run,
        Sectors-suc n pa offset m m1 m' first rest,
      )

  sector_byte :
      (pa offset a : ℕ)
      → pa % 512 ≡ offset % 512
      → pa ≤ a
      → (offset / 512 + 1) * 512 + (a - (pa - pa % 512)) ≡ 512 + offset + (a - pa)
  sector_byte pa offset a same h = omega arith

  Sectors-inside :
      (n pa count offset : ℕ) (m m' : Mem) (a : ℕ)
      → Sectors n (pa - pa % 512) (offset / 512 + 1) m m'
      → pa % 512 ≡ offset % 512
      → pa + count ≤ pa - pa % 512 + 512 * n
      → pa ≤ a
      → a < pa + count
      → m' a ≡ disk (512 + offset + (a - pa))
  Sectors-inside n pa count offset m m' a h same k lo hi =
      let i : within (pa - pa % 512) (512 * n) a ≡ true = ground arith in
      h a ∙ rw (i, sector_byte pa offset a same lo) refl

  -- The segment and the sectors around it lie below 2^32, and the disk's sectors below 2^28. With
  -- more fuel than the sectors that the segment touches, readseg returns; where the address and
  -- the offset agree in their place in a sector, each byte of the segment is the byte of the
  -- kernel image, which starts at sector 1, and memory is as it was below the first touched sector,
  -- and from 511 bytes behind the segment on.
  pub readseg-image :
      (g pa count offset : ℕ) (m : Mem) (d : Device)
      → pa + count + 511 < 2 ^ 32
      → offset / 512 + count / 512 + 3 < 2 ^ 28
      → count / 512 + 2 < g
      → pa % 512 ≡ offset % 512
      → (m' : Mem) × (d' : Device) × (readseg ports insl f g pa count offset (m, d) ≡ some (m', d'))
        × ((a : ℕ) → pa ≤ a → a < pa + count → m' a ≡ disk (512 + offset + (a - pa)))
        × ((a : ℕ) → a < pa - pa % 512 → m' a ≡ m a)
        × ((a : ℕ) → pa + count + 511 ≤ a → m' a ≡ m a)
  unfolding readseg
  readseg-image g pa count offset m d no_wrap small fuel same =
      let n : ℕ = (pa % 512 + count + 511) / 512 in
      let end_pa : (pa + count) % 2 ^ 32 ≡ pa + count = omega arith in
      let (m', d', run, h) =
        readseg_loop-Sectors n g (pa - pa % 512) (pa + count) (offset / 512 + 1) m d (omega arith)
          (omega arith) (omega arith) (omega arith) (omega arith) in
      (
        m',
        d',
        ap (λ k. readseg_loop ports insl f g (pa - pa % 512) k (offset / 512 + 1) (m, d)) end_pa
            ∙ run,
        λ a lo hi. Sectors-inside n pa count offset m m' a h same (omega arith) lo hi,
        λ a lo. let r = h a in ground arith,
        λ a hi. let r = h a in ground arith,
      )

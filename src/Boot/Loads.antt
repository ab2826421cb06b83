-- ===== src/Boot/Loads.antt =====
-- bootmain of boot/main.c loads every segment of the kernel's image, and enters the kernel.
use vukernelprogramming.Prelude.{
  ℕ, suc, ◌+◌, ◌-◌, ◌*◌, ◌/◌, ◌%◌, ◌^◌, ◌<◌, ◌≤◌, ◌≡◌, ◌⊎◌, inl, inr, refl, true, some, List, [],
  ◌∷◌, length, ◌==◌, arith, ap, ◌∙◌, subst,
}
use vukernelprogramming.Memory.{Mem}
use vukernelprogramming.Ports.{Ports}
use vukernelprogramming.Boot.{
  word16, word32, elfhdr, elf_magic, e_magic, e_entry, e_phoff, e_phnum, p_offset, p_pa, p_memsz,
  enter, readseg, load_segments, bootmain,
}
use vukernelprogramming.Boot.Segment.{IsDisk, readseg-image}
use vukernelprogramming.Boot.Start.{word32-same}

-- what a program header says
pub record Header : Type 0 where
  pub offset : ℕ
  pub pa : ℕ
  pub memsz : ℕ

-- the headers stand one after another from `p` on, 32 bytes each
abbrev pub HeadersAt : (ℕ → ℕ) → ℕ → List Header → Type 0
HeadersAt disk p [] = Unit {0}
HeadersAt disk p (h ∷ hs) =
    (word32 disk (p + 4) ≡ h.offset)
    × (word32 disk (p + 12) ≡ h.pa)
    × (word32 disk (p + 20) ≡ h.memsz)
    × HeadersAt disk (p + 32) hs

-- the address is outside the sectors that a segment is read in
abbrev pub Outside : Header → ℕ → Type 0
Outside h a = (a < h.pa - h.pa % 512) ⊎ (h.pa + h.memsz + 511 ≤ a)

abbrev pub OutsideAll : List Header → ℕ → Type 0
OutsideAll [] a = Unit {0}
OutsideAll (h ∷ hs) a = Outside h a × OutsideAll hs a

-- the sectors of the segment `h` lie outside the `n` bytes from `p`
abbrev pub Apart : ℕ → ℕ → Header → Type 0
Apart p n h = (p + n ≤ h.pa - h.pa % 512) ⊎ (h.pa + h.memsz + 511 ≤ p)

abbrev pub AllApart : ℕ → ℕ → List Header → Type 0
AllApart p n [] = Unit {0}
AllApart p n (h ∷ hs) = Apart p n h × AllApart p n hs

-- each segment lies below 2^32 and in the first 2^28 sectors, its address and its offset agree in
-- their place in a sector, it leaves the page of the headers alone, and no later segment is read over it
abbrev pub CanLoad : ℕ → List Header → Type 0
CanLoad g [] = Unit {0}
CanLoad g (h ∷ hs) =
    (h.pa + h.memsz + 511 < 2 ^ 32)
    × (h.offset / 512 + h.memsz / 512 + 3 < 2 ^ 28)
    × (h.memsz / 512 + 2 < g)
    × (h.pa % 512 ≡ h.offset % 512)
    × Apart elfhdr 4096 h
    × AllApart h.pa h.memsz hs
    × CanLoad g hs

-- the bytes of each segment are at its address
abbrev pub Loaded : (ℕ → ℕ) → List Header → Mem → Type 0
Loaded disk [] m = Unit {0}
Loaded disk (h ∷ hs) m =
    ((a : ℕ) → h.pa ≤ a → a < h.pa + h.memsz → m a ≡ disk (512 + h.offset + (a - h.pa)))
    × Loaded disk hs m

Apart-Outside : (p n a : ℕ) (h : Header) → Apart p n h → p ≤ a → a < p + n → Outside h a
Apart-Outside p n a h (inl before) lo hi = inl (omega arith)
Apart-Outside p n a h (inr behind) lo hi = inr (omega arith)

AllApart-OutsideAll :
    (p n a : ℕ) (hs : List Header) → AllApart p n hs → p ≤ a → a < p + n → OutsideAll hs a
AllApart-OutsideAll p n a [] k lo hi = tt
AllApart-OutsideAll p n a (h ∷ hs) k lo hi =
    (Apart-Outside p n a h k.0 lo hi, AllApart-OutsideAll p n a hs k.1 lo hi)

-- the first page of the image is at ELFHDR
abbrev PageAt : (ℕ → ℕ) → Mem → Type 0
PageAt disk m = (i : ℕ) → i < 4096 → m (elfhdr + i) ≡ disk (512 + i)

page-word32 :
    (disk : ℕ → ℕ) (m : Mem) (p : ℕ)
    → PageAt disk m
    → p + 4 ≤ 4096
    → word32 m (elfhdr + p) ≡ word32 disk (512 + p)
page-word32 disk m p page h =
    word32-same m disk (elfhdr + p) (512 + p)
      (λ i l. ap m (omega arith) ∙ page (p + i) (omega arith) ∙ ap disk (omega arith))

word16-same :
    (m m' : Mem) (a b : ℕ) → m a ≡ m' b → m (a + 1) ≡ m' (b + 1) → word16 m a ≡ word16 m' b
word16-same m m' a b e k = rw (e, k) refl

header-word32 :
    (disk : ℕ → ℕ) (m : Mem) (p k : ℕ)
    → PageAt disk m
    → p + k + 4 ≤ 4096
    → word32 m (elfhdr + p + k) ≡ word32 disk (512 + p + k)
header-word32 disk m p k page h =
    ap (word32 m) (omega arith) ∙ page-word32 disk m (p + k) page h ∙ ap (word32 disk) (omega arith)

module _ (ports : Ports) (insl : ℕ → ℕ → ℕ → Mem × ports.Device → Mem × ports.Device) (f : ℕ)
    (disk : ℕ → ℕ) (is_disk : IsDisk ports insl f disk) (g : ℕ) where
  open ports use {Device}

  load_segments-on :
      (n ph : ℕ) (h : Header) (m m1 : Mem) (d d1 : Device)
      → p_offset m ph ≡ h.offset
      → p_pa m ph ≡ h.pa
      → p_memsz m ph ≡ h.memsz
      → readseg ports insl f g h.pa h.memsz h.offset (m, d) ≡ some (m1, d1)
      → load_segments ports insl f g (suc n) ph (m, d)
        ≡ load_segments ports insl f g n (ph + 32) (m1, d1)
  unfolding load_segments
  load_segments-on n ph h m m1 d d1 e1 e2 e3 run = rw (e1, e2, e3, run, load_segments) refl

  load_segments-Loaded :
      (hs : List Header) (p : ℕ) (m : Mem) (d : Device)
      → PageAt disk m
      → HeadersAt disk (512 + p) hs
      → p + 32 * length hs ≤ 4096
      → CanLoad g hs
      → (m' : Mem) × (d' : Device) × (load_segments ports insl f g (length hs) (elfhdr + p) (m, d)
          ≡ some (m', d'))
        × Loaded disk hs m'
        × PageAt disk m'
        × ((a : ℕ) → OutsideAll hs a → m' a ≡ m a)
  unfolding load_segments
  load_segments-Loaded [] p m d page at room can = (m, d, refl, tt, page, λ a o. refl)
  load_segments-Loaded (h ∷ hs) p m d page at room can =
      let (m1, d1, run1, bytes, below, above) =
        readseg-image ports insl f disk is_disk g h.pa h.memsz h.offset m d can.0 can.1 can.2
          can.3 in
      let same : (a : ℕ) → Outside h a → m1 a ≡ m a =
        λ a o. elim o [ inl lo ↦ below a lo | inr hi ↦ above a hi ] in
      let page1 : PageAt disk m1 = λ i l.
        same (elfhdr + i)
          (Apart-Outside elfhdr 4096 (elfhdr + i) h can.4 (omega arith) (omega arith))
        ∙ page i l in
      let next : HeadersAt disk (512 + (p + 32)) hs =
        subst (λ q. HeadersAt disk q hs) (omega arith) at.3 in
      let (m', d', run, loaded, page', kept) =
        load_segments-Loaded hs (p + 32) m1 d1 page1 next (omega arith) can.6 in
      (
        m',
        d',
        load_segments-on (length hs) (elfhdr + p) h m m1 d d1
              (header-word32 disk m p 4 page (omega arith) ∙ at.0)
              (header-word32 disk m p 12 page (omega arith) ∙ at.1)
              (header-word32 disk m p 20 page (omega arith) ∙ at.2) run1
            ∙ ap (λ q. load_segments ports insl f g (length hs) q (m1, d1)) (omega arith)
            ∙ run,
        (
          λ a lo hi. kept a (AllApart-OutsideAll h.pa h.memsz a hs can.5 lo hi) ∙ bytes a lo hi,
          loaded,
        ),
        page',
        λ a o. kept a o.1 ∙ same a o.0,
      )

  bootmain-loaded :
      (outw : ℕ → ℕ → Device → Device) (x : Mem × Device) (m m' : Mem) (d d' : Device)
      (n ph entry : ℕ)
      → readseg ports insl f g elfhdr 4096 0 x ≡ some (m, d)
      → e_magic m ≡ elf_magic
      → e_phnum m ≡ n
      → elfhdr + e_phoff m ≡ ph
      → load_segments ports insl f g n ph (m, d) ≡ some (m', d')
      → e_entry m' ≡ entry
      → bootmain ports insl f g outw x ≡ some (enter entry, m', d')
  unfolding bootmain
  bootmain-loaded outw x m m' d d' n ph entry run magic phnum phoff load e =
      let good : (e_magic m == elf_magic) ≡ true = ground (arith, magic) in
      rw (run, good, phnum, phoff, load, bootmain) (ap (λ k. some (enter k, m', d')) e)

  -- Let the image on the disk, from sector 1 on, start with the magic number of an ELF file, and have
  -- its program headers `hs` in its first page. Let each segment lie below 2^32 and in the first 2^28
  -- sectors, with an address and an offset that agree in their place in a sector, read neither over
  -- the page of the headers nor over the bytes of an earlier segment. With more fuel than the sectors
  -- of any segment, bootmain enters the kernel at the entry point of the image: each byte of each
  -- segment is then the image's, and memory outside the sectors read and the page of the headers is
  -- as it was.
  pub bootmain-loads :
      (outw : ℕ → ℕ → Device → Device) (hs : List Header) (p : ℕ) (m : Mem) (d : Device)
      → 10 < g
      → word32 disk 512 ≡ elf_magic
      → word16 disk (512 + 44) ≡ length hs
      → word32 disk (512 + 28) ≡ p
      → HeadersAt disk (512 + p) hs
      → p + 32 * length hs ≤ 4096
      → CanLoad g hs
      → (m' : Mem) × (d' : Device) × (bootmain ports insl f g outw (m, d)
          ≡ some (enter (word32 disk (512 + 24)), m', d'))
        × Loaded disk hs m'
        × ((a : ℕ) → OutsideAll hs a → (a < elfhdr) ⊎ (elfhdr + 4096 + 511 ≤ a) → m' a ≡ m a)
  bootmain-loads outw hs p m d fuel magic phnum phoff at room can =
      let (m1, d1, run1, bytes, below, above) =
        readseg-image ports insl f disk is_disk g elfhdr 4096 0 m d (omega arith) (omega arith)
          (omega arith) refl in
      let page : PageAt disk m1 =
        λ i l. bytes (elfhdr + i) (omega arith) (omega arith) ∙ ap disk (omega arith) in
      let count : e_phnum m1 ≡ length hs =
        word16-same m1 disk (elfhdr + 44) (512 + 44) (page 44 (omega arith)) (page 45 (omega arith))
        ∙ phnum in
      let (m', d', run, loaded, page', kept) = load_segments-Loaded hs p m1 d1 page at room can in
      (
        m',
        d',
        bootmain-loaded outw (m, d) m1 m' d1 d' (length hs) (elfhdr + p) (word32 disk (512 + 24))
            run1 (page-word32 disk m1 0 page (omega arith) ∙ magic) count
            (ap (λ k. elfhdr + k) (page-word32 disk m1 28 page (omega arith) ∙ phoff)) run
            (page-word32 disk m' 24 page' (omega arith)),
        loaded,
        λ a o apart. kept a o ∙ elim apart [ inl lo ↦ below a (omega arith) | inr hi ↦ above a hi ],
      )

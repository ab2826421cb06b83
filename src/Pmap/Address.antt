-- ===== src/Pmap/Address.antt =====
-- The address arithmetic of inc/mmu.h, inc/memlayout.h and kern/pmap.h, and the rounding of
-- inc/types.h, on 32 bits. A page_info pointer is the page's index.
use vukernelprogramming.Prelude.{
  ℕ, ◌+◌, ◌-◌, ◌*◌, ◌/◌, ◌%◌, ◌^◌, ◌≤◌, ◌<◌, ◌≡◌, Option, none, some, ltb, leb, if◌then◌else◌,
  arith,
}

abbrev pub pgsize : ℕ
pgsize = 4096

abbrev pub kernbase : ℕ
kernbase = 0xF0000000

abbrev pub iophysmem : ℕ
iophysmem = 0x0A0000

abbrev pub extphysmem : ℕ
extphysmem = 0x100000

unfoldable pub pgnum : ℕ → ℕ
pgnum la = la / 2 ^ 12

unfoldable pub pdx : ℕ → ℕ
pdx la = la / 2 ^ 22 % 2 ^ 10

unfoldable pub ptx : ℕ → ℕ
ptx la = la / 2 ^ 12 % 2 ^ 10

unfoldable pub pgoff : ℕ → ℕ
pgoff la = la % 2 ^ 12

-- (void*) ((d) << PDXSHIFT | (t) << PTXSHIFT | (o)), for fields that do not overlap
unfoldable pub pgaddr : ℕ → ℕ → ℕ → ℕ
pgaddr d t o = (d * 2 ^ 22 + t * 2 ^ 12 + o) % 2 ^ 32

unfoldable pub round_down : ℕ → ℕ → ℕ
round_down a n = a - a % n

unfoldable pub round_up : ℕ → ℕ → ℕ
unfolding round_down
round_up a n = round_down ((a + n - 1) % 2 ^ 32) n

unfoldable pub paddr : ℕ → Option ℕ
paddr kva = if ltb kva kernbase then none else some (kva - kernbase)

module _ (npages : ℕ) where
  unfoldable pub kaddr : ℕ → Option ℕ
  unfolding pgnum
  kaddr pa = if leb npages (pgnum pa) then none else some ((pa + kernbase) % 2 ^ 32)

  unfoldable pub pa2page : ℕ → Option ℕ
  unfolding pgnum
  pa2page pa = if leb npages (pgnum pa) then none else some (pgnum pa)

unfoldable pub page2pa : ℕ → ℕ
page2pa page = page * 2 ^ 12 % 2 ^ 32

-- An address is put together again from its directory index, table index and offset, and the
-- three are taken apart again from the address.
pub pgaddr_parts :
    (la d t o : ℕ)
    → la < 2 ^ 32
    → d < 1024
    → t < 1024
    → o < 4096
    → (pgaddr (pdx la) (ptx la) (pgoff la) ≡ la)
      × (pdx (pgaddr d t o) ≡ d)
      × (ptx (pgaddr d t o) ≡ t)
      × (pgoff (pgaddr d t o) ≡ o)
unfolding pgaddr pdx ptx pgoff
pgaddr_parts la d t o h p q r = omega arith

-- With at most 65536 pages, which are the 256 MB that the kernel maps, a page's physical address
-- leads back to the page, and its kernel address leads back to its physical address. A physical
-- address behind the last page has neither a page nor a kernel address, and an address below
-- KERNBASE has no physical address; from KERNBASE on, paddr accepts every address, also one behind the
-- last page.
pub page_addresses :
    (npages page : ℕ)
    → npages ≤ 65536
    → page < npages
    → (pa2page npages (page2pa page) ≡ some page)
      × (kaddr npages (page2pa page) ≡ some (page2pa page + kernbase))
      × (paddr (page2pa page + kernbase) ≡ some (page2pa page))
      × ((pa : ℕ) → npages * 4096 ≤ pa → (pa2page npages pa ≡ none) × (kaddr npages pa ≡ none))
      × ((kva : ℕ) → kva < kernbase → paddr kva ≡ none)
      × ((kva : ℕ) → kernbase ≤ kva → paddr kva ≡ some (kva - kernbase))
unfolding pa2page kaddr paddr page2pa
page_addresses npages page h p = (
  ground arith,
  ground arith,
  ground arith,
  λ pa k. ground arith,
  λ kva k. ground arith,
  λ kva k. ground arith,
)

-- ROUNDUP gives the least multiple of `n` that is not below `a`, where the sum does not wrap.
pub round_up_least :
    (a k : ℕ)
    → a + 4095 < 2 ^ 32
    → (round_up a 4096 % 4096 ≡ 0)
      × (a ≤ round_up a 4096)
      × (a ≤ k * 4096 → round_up a 4096 ≤ k * 4096)
unfolding round_up
round_up_least a k h = (omega arith, omega arith, λ p. omega arith)

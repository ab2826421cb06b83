-- ===== src/Pmap/Entry.antt =====
-- kern/entrypgdir.c: the page directory and the page table with which entry.S turns paging on.
-- The address of the page table is an argument, since the linker chooses it.
mod Table
use Prim.Native.Nat.{bit_or}
use vukernelprogramming.Prelude.{
  ℕ, ◌+◌, ◌-◌, ◌*◌, ◌/◌, ◌%◌, ◌^◌, ◌<◌, ◌≤◌, ◌≡◌, ◌≢◌, refl, true, Option, none, some, ltb, ◌==◌,
  if◌then◌else◌, arith, passes, passes-at, ==_iff, Bool-cases, inl, inr, ◌&&◌, ◌∙◌, ap, get_or,
}
use vukernelprogramming.Memory.{within}
use vukernelprogramming.Pmap.Entry.Table.{rows, rows-get_or}
use vukernelprogramming.Pmap.Address.{kernbase, pdx, ptx, pgoff}

abbrev pub pte_p : ℕ
pte_p = 1

abbrev pub pte_w : ℕ
pte_w = 2

-- pte & ~0xFFF
unfoldable pub pte_addr : ℕ → ℕ
pte_addr pte = pte - pte % 2 ^ 12

-- an initializer
abbrev with_flags : ℕ → ℕ
with_flags a = bit_or (bit_or a pte_p) pte_w

-- entry i of the 1024 in the table
unfoldable pub entry_pgtable : ℕ → ℕ
entry_pgtable i = with_flags (get_or rows i 0)

-- the entries 0 and KERNBASE >> PDXSHIFT, which is 960; the others are 0
unfoldable pub entry_pgdir : ℕ → ℕ → ℕ
entry_pgdir entry_pgtable_addr i =
    if i == 0
    then (entry_pgtable_addr + (2 ^ 32 - kernbase)) % 2 ^ 32 + pte_p
    else if i == kernbase / 2 ^ 22
    then (entry_pgtable_addr + (2 ^ 32 - kernbase)) % 2 ^ 32 + pte_p + pte_w
    else 0

with_flags_all : passes (λ i. with_flags (i * 4096) == i * 4096 + 3) 1024 ≡ true
unfolding passes
with_flags_all = refl

entry_pgtable-eq : (i : ℕ) → i < 1024 → entry_pgtable i ≡ i * 4096 + 3
unfolding entry_pgtable
entry_pgtable-eq i h =
    ap with_flags (rows-get_or i h)
    ∙ (==_iff (with_flags (i * 4096)) (i * 4096 + 3)).0
        (passes-at (λ i. with_flags (i * 4096) == i * 4096 + 3) 1024 i h with_flags_all)

-- the physical address that the processor finds, where the only page table in memory is
-- `entry_pgtable` at the physical address `table`
abbrev pub translate : (ℕ → ℕ) → ℕ → ℕ → Option ℕ
translate pgdir table la =
    let pde = pgdir (pdx la) in
    let pte = entry_pgtable (ptx la) in
    if (pde % 2 == 1) && (pte_addr pde == table) && (pte % 2 == 1)
    then some (pte_addr pte + pgoff la)
    else none

pde_low :
    (t i : ℕ)
    → t % 4096 ≡ 0
    → i ≡ 0
    → kernbase ≤ t
    → t < 2 ^ 32
    → (entry_pgdir t i % 2 ≡ 1) × (pte_addr (entry_pgdir t i) ≡ t - kernbase)
unfolding entry_pgdir pte_addr
pde_low t i a e h k = ground arith

pde_high :
    (t i : ℕ)
    → t % 4096 ≡ 0
    → i ≡ 960
    → kernbase ≤ t
    → t < 2 ^ 32
    → (entry_pgdir t i % 2 ≡ 1) × (pte_addr (entry_pgdir t i) ≡ t - kernbase)
unfolding entry_pgdir pte_addr
pde_high t i a e h k = ground arith

pde_none : (t i : ℕ) → i ≢ 0 → i ≢ 960 → entry_pgdir t i ≡ 0
unfolding entry_pgdir
pde_none t i a b = ground arith

ptx_lt : (la : ℕ) → ptx la < 1024
unfolding ptx
ptx_lt la = omega arith

pte_parts :
    (la : ℕ)
    → (entry_pgtable (ptx la) % 2 ≡ 1) × (pte_addr (entry_pgtable (ptx la)) ≡ ptx la * 4096)
unfolding pte_addr
pte_parts la = let e = entry_pgtable-eq (ptx la) (ptx_lt la) in ground arith

mapped :
    (pgdir : ℕ → ℕ) (table la : ℕ)
    → pgdir (pdx la) % 2 ≡ 1
    → pte_addr (pgdir (pdx la)) ≡ table
    → translate pgdir table la ≡ some (ptx la * 4096 + pgoff la)
mapped pgdir table la p q = let e = pte_parts la in rw (p, q, e.0, e.1) (ground arith)

unmapped : (pgdir : ℕ → ℕ) (table la : ℕ) → pgdir (pdx la) ≡ 0 → translate pgdir table la ≡ none
unmapped pgdir table la p = rw p (ground arith)

whole_la : (la : ℕ) → la < 2 ^ 32 → pdx la * 2 ^ 22 + (ptx la * 4096 + pgoff la) ≡ la
unfolding pdx ptx pgoff
whole_la la h = omega arith

offset_lt : (la : ℕ) → ptx la * 4096 + pgoff la < 2 ^ 22
unfolding ptx pgoff
offset_lt la = omega arith

-- With the page table on a page boundary above KERNBASE, the tables map the first 4 MB and the
-- 4 MB from KERNBASE to the first 4 MB of physical memory, and no other address.
pub entry-translate :
    (t la : ℕ)
    → t % 4096 ≡ 0
    → kernbase ≤ t
    → t < 2 ^ 32
    → la < 2 ^ 32
    → translate (entry_pgdir t) (t - kernbase) la ≡ (
        if ltb la (2 ^ 22)
        then some la
        else if within kernbase (2 ^ 22) la
        then some (la - kernbase)
        else none)
entry-translate t la a h k l =
    let w = whole_la la l in
    let o = offset_lt la in
    elim (Bool-cases (pdx la == 0)) [
      | inl low ↦
          let e : pdx la ≡ 0 = ground arith in
          let d = pde_low t (pdx la) a e h k in
          mapped (entry_pgdir t) (t - kernbase) la d.0 d.1 ∙ ground arith
      | inr other ↦ elim (Bool-cases (pdx la == 960)) [
        | inl high ↦
            let e : pdx la ≡ 960 = ground arith in
            let d = pde_high t (pdx la) a e h k in
            mapped (entry_pgdir t) (t - kernbase) la d.0 d.1 ∙ ground arith
        | inr neither ↦
            unmapped (entry_pgdir t) (t - kernbase) la
              (pde_none t (pdx la) (ground arith) (ground arith))
            ∙ ground arith
      ]
    ]

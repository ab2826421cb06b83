-- ===== src/Tests/Pages.antt =====
-- kern/pmap.c and inc/mmu.h on four pages.
use vukernelprogramming.Prelude.{
  ◌-◌, ℕ, ◌+◌, ◌*◌, if◌then◌else◌, ◌==◌, ◌≤◌, ◌<◌, ◌≡◌, refl, none, some, [], ◌∷◌, ◌++◌, arith,
}
use vukernelprogramming.Pmap.Address.{kernbase, paddr, kaddr, pa2page, page2pa, page_addresses}
use vukernelprogramming.Pmap.Pages.{Pages, is_high, page_init, low_pages_first}
use vukernelprogramming.Pmap.Pages.Chains.{Chain, pushed, page_init-Chain}
use vukernelprogramming.Pmap.Pages.Partition.{low_of, high_of, low_pages_first-Chain}

page_addresses_example :
    (pa2page 16 (page2pa 3) ≡ some 3)
    × (kaddr 16 (page2pa 3) ≡ some (page2pa 3 + kernbase))
    × (paddr (page2pa 3 + kernbase) ≡ some (page2pa 3))
    × ((pa : ℕ) → 16 * 4096 ≤ pa → (pa2page 16 pa ≡ none) × (kaddr 16 pa ≡ none))
    × ((kva : ℕ) → kva < kernbase → paddr kva ≡ none)
    × ((kva : ℕ) → kernbase ≤ kva → paddr kva ≡ some (kva - kernbase))
page_addresses_example = page_addresses 16 3 (omega arith) (omega arith)

abbrev fresh : Pages
fresh = record { cell = λ a. none; pp_ref = λ i. 7; page_free_list = none }

page_init-Chain_example :
    Chain (page_init 4 fresh).cell (page_init 4 fresh).page_free_list (pushed 4 0 [])
    × ((j : ℕ) → j < 4 → (page_init 4 fresh).pp_ref j ≡ 0)
page_init-Chain_example = page_init-Chain 4 fresh refl

-- a free list of the pages 1500, 2, 1024 and 0
abbrev mixed : Pages
mixed = record {
  cell = λ a.
      if a == 1502
      then some 2
      else if a == 4
      then some 1024
      else if a == 1026
      then some 0
      else none;
  pp_ref = λ i. 0;
  page_free_list = some 1500;
}

low_pages_first-Chain_example :
    (s' : Pages) × (low_pages_first 5 mixed ≡ some s')
    × Chain s'.cell s'.page_free_list
        (low_of 1 (1500 ∷ 2 ∷ 1024 ∷ 0 ∷ []) ++ high_of 1 (1500 ∷ 2 ∷ 1024 ∷ 0 ∷ []))
low_pages_first-Chain_example =
    low_pages_first-Chain 5 mixed (1500 ∷ 2 ∷ 1024 ∷ 0 ∷ []) (ground arith) (ground arith)
      (omega arith)

-- the low pages are 2 and 0
low_of_run : low_of 1 (1500 ∷ 2 ∷ 1024 ∷ 0 ∷ []) ≡ 2 ∷ 0 ∷ []
unfolding is_high
low_of_run = refl

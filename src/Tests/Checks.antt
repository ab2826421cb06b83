-- ===== src/Tests/Checks.antt =====
-- The checks of kern/pmap.c on a free list of the pages 300 and 2.
use vukernelprogramming.Prelude.{
  ◌≡◌, refl, true, false, none, some, [], ◌∷◌, ◌++◌, arith, if◌then◌else◌, ◌==◌,
}
use vukernelprogramming.Pmap.Pages.{page_init}
use vukernelprogramming.Pmap.Pages.Chains.{Chain}
use vukernelprogramming.Pmap.Pages.Partition.{low_of, high_of}
use vukernelprogramming.Pmap.Run.{Panic, panic, done}
use vukernelprogramming.Pmap.Check.{Machine, boot_alloc, check_page_free_list}
use vukernelprogramming.Pmap.Address.{round_up}
use vukernelprogramming.Pmap.Check.Accepts.{
  acceptable, check_page_free_list-accepts, check_page_free_list-page_init,
}

abbrev two_free : Machine
two_free = record {
  pages = record {
    cell = λ a. if a == 302 then some 2 else none;
    pp_ref = λ i. 0;
    page_free_list = some 300;
  };
  mem = λ a. 0;
  nextfree = 0;
}

-- a first call of boot_alloc sets the next free byte to a page boundary, and returns NULL
boot_alloc_run : boot_alloc 0xf0110123 4096 0 ≡ (0, 0xf0111000)
unfolding boot_alloc round_up
boot_alloc_run = refl

check_page_free_list-accepts_example :
    (acceptable 1000 (300 ∷ 2 ∷ []) ≡ true
      → (s' : Machine) × (check_page_free_list 1000 3 0xf0110000 true two_free ≡ done s')
        × Chain s'.pages.cell s'.pages.page_free_list
            (low_of 1 (300 ∷ 2 ∷ []) ++ high_of 1 (300 ∷ 2 ∷ [])))
    × (acceptable 1000 (300 ∷ 2 ∷ []) ≡ false
        → (e : Panic) × (check_page_free_list 1000 3 0xf0110000 true two_free ≡ panic e))
check_page_free_list-accepts_example =
    check_page_free_list-accepts 1000 3 0xf0110000 two_free (300 ∷ 2 ∷ []) (omega arith)
      (refl, (refl, refl)) (((λ e. absurd (omega arith)), tt), (tt, tt)) (omega arith)

abbrev no_pages : Machine
no_pages = record {
  pages = record { cell = λ a. none; pp_ref = λ i. 0; page_free_list = none };
  mem = λ a. 0;
  nextfree = 0;
}

check_page_free_list-page_init_example :
    (e : Panic) × (check_page_free_list 1000 1001 0xf0110000 true
        (record no_pages { pages = page_init 1000 no_pages.pages })
      ≡ panic e)
check_page_free_list-page_init_example =
    check_page_free_list-page_init 1000 1001 0xf0110000 no_pages (omega arith) (omega arith)
      (omega arith) refl

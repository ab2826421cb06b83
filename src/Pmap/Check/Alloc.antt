-- ===== src/Pmap/Check/Alloc.antt =====
-- check_page_alloc of kern/pmap.c, and its verdict on page_alloc and page_free as the source has
-- them.
use vukernelprogramming.Prelude.{
  ℕ, zero, suc, ◌+◌, ◌*◌, ◌%◌, ◌^◌, ◌<◌, ◌≡◌, Bool, true, ◌&&◌, not, Option, none, some, List, [],
  ◌∷◌, arith, ltb, ◌==◌, if◌then◌else◌, length, ◌∙◌,
}
use vukernelprogramming.Memory.{Mem}
use vukernelprogramming.Str.Block.{memset}
use vukernelprogramming.Pmap.Address.{pgsize, page2pa}
use vukernelprogramming.Pmap.Pages.{Cells, link_of, page_alloc, page_free}
use vukernelprogramming.Pmap.Pages.Chains.{Chain}
use vukernelprogramming.Pmap.Run.{
  Panic, Run, fuel_out, panic, done, ◌>>=◌, ◌>>◌, null_pages, no_page, same_page, page_out_of_range,
  page_left, wrong_page, not_zeroed, wrong_count, invalid_pa,
}
use vukernelprogramming.Pmap.Check.{Machine, page2kva}

-- assert(b), with the panic of a failure
unfoldable pub expect : Bool → Panic → Run (Unit {0})
expect b e = if b then done tt else panic e

-- for (pp = page_free_list; pp; pp = pp->pp_link) ++nfree;
unfoldable pub count_free : ℕ → Option ℕ → Cells → ℕ → Run ℕ
count_free zero p cell n = fuel_out
count_free (suc f) p cell n = elim p [
  | none ↦ done n
  | some q ↦ count_free f (cell (link_of q)) cell (n + 1)
]

-- for (i = 0; i < PGSIZE; i++) assert(c[i] == 0); with `n` bytes from `a`
unfoldable pub zeroed : ℕ → ℕ → Mem → Bool
zeroed zero a m = true
zeroed (suc n) a m = (m a == 0) && zeroed n (a + 1) m

-- page_alloc and page_free, which leave the memory alone
abbrev alloc : ℕ → Machine → Option ℕ × Machine
alloc flags s = ((page_alloc flags s.pages).0, record s { pages = (page_alloc flags s.pages).1 })

abbrev free : ℕ → Machine → Machine
free page s = record s { pages = page_free page s.pages }

abbrev pub alloc_zero : ℕ
alloc_zero = 1

module _ (npages : ℕ) where
  -- assert((pp = page_alloc(flags)))
  unfoldable pub expect_page : ℕ → Machine → Run (ℕ × Machine)
  expect_page flags s = elim (alloc flags s).0 [
    | none ↦ panic no_page
    | some q ↦ done (q, (alloc flags s).1)
  ]

  -- assert(!page_alloc(0))
  unfoldable pub none_left : Machine → Run Machine
  none_left s = elim (alloc 0 s).0 [ none ↦ done (alloc 0 s).1 | some q ↦ panic page_left ]

  -- the assertions that the three pages differ
  unfoldable pub three_pages : ℕ → ℕ → ℕ → Run (Unit {0})
  unfolding expect
  three_pages p0 p1 p2 = do
    expect (not (p1 == p0)) same_page
    expect (not (p2 == p1) && not (p2 == p0)) same_page

  unfoldable pub in_range : ℕ → Run (Unit {0})
  unfolding expect
  in_range p = expect (ltb (page2pa p) (npages * pgsize % 2 ^ 32)) page_out_of_range

  -- page2kva, where it does not panic
  unfoldable pub page_address : ℕ → Run ℕ
  page_address p = elim (page2kva npages p) [ none ↦ panic invalid_pa | some a ↦ done a ]

  unfoldable pub free_three : ℕ → ℕ → ℕ → Machine → Machine
  free_three p0 p1 p2 s = free p2 (free p1 (free p0 s))

  unfoldable pub set_free_list : Option ℕ → Machine → Machine
  set_free_list p s = record s { pages = record (s.pages) { page_free_list = p } }

  unfoldable pub fill_page : ℕ → Machine → Machine
  fill_page a s = record s { mem = memset s.mem a 1 pgsize }

  -- the part behind the first three allocations; `nfree` is the count, `fl` the list put aside
  unfoldable pub stolen : ℕ → ℕ → Option ℕ → ℕ → ℕ → ℕ → Machine → Run Machine
  stolen f nfree fl p0 p1 p2 s = do
    s1 ← none_left (set_free_list none s)
    t0 ← expect_page 0 (free_three p0 p1 p2 s1)
    t1 ← expect_page 0 t0.1
    t2 ← expect_page 0 t1.1
    three_pages t0.0 t1.0 t2.0
    s2 ← none_left t2.1
    a ← page_address t0.0
    t ← expect_page alloc_zero (free t0.0 (fill_page a s2))
    expect (t.0 == t0.0) wrong_page
    c ← page_address t.0
    expect (zeroed pgsize c t.1.mem) not_zeroed
    let s3 = free_three t0.0 t1.0 t2.0 (set_free_list fl t.1)
    n ← count_free f s3.pages.page_free_list s3.pages.cell 0
    expect (n == nfree) wrong_count
    done s3

  -- whether the array of pages is there, then the state
  unfoldable pub check_page_alloc : ℕ → Bool → Machine → Run Machine
  check_page_alloc f have_pages s = do
    expect have_pages null_pages
    nfree ← count_free f s.pages.page_free_list s.pages.cell 0
    t0 ← expect_page 0 s
    t1 ← expect_page 0 t0.1
    t2 ← expect_page 0 t1.1
    three_pages t0.0 t1.0 t2.0
    in_range t0.0
    in_range t1.0
    in_range t2.0
    stolen f nfree t2.1.pages.page_free_list t0.0 t1.0 t2.0 t2.1

pub count_free-length :
    (f : ℕ) (p : Option ℕ) (cell : Cells) (xs : List ℕ) (n : ℕ)
    → Chain cell p xs
    → length xs < f
    → count_free f p cell n ≡ done (n + length xs)
unfolding count_free
count_free-length zero p cell xs n c fuel = absurd (omega arith)
count_free-length (suc f) p cell [] n c fuel = rw (c, count_free) (ground arith)
count_free-length (suc f) p cell (q ∷ xs) n c fuel =
    rw (c.0, count_free)
      (count_free-length f (cell (link_of q)) cell xs (n + 1) c.1 (omega arith) ∙ ground arith)

-- ===== src/Pmap/Pages.antt =====
-- The array of pages and its free list, in kern/pmap.c. The variables that the code links pages
-- through are cells: the list heads pp1 and pp2 of check_page_free_list are cells 0 and 1, and the
-- link of page `i` is cell `i + 2`. A pointer is a page's index, or `none` for NULL.
pub mod Chains
pub mod Segments
pub mod Partition
use vukernelprogramming.Prelude.{
  ℕ, zero, suc, ◌+◌, ◌%◌, Bool, true, false, Option, none, some, leb, ◌==◌, if◌then◌else◌,
}
use vukernelprogramming.Pmap.Address.{pdx, page2pa}

abbrev pub Cells : Type 0
Cells = ℕ → Option ℕ

-- &pages[i].pp_link
abbrev pub link_of : ℕ → ℕ
link_of i = suc (suc i)

unfoldable pub set_cell : Cells → ℕ → Option ℕ → Cells
set_cell cell l p a = if a == l then p else cell a

pub record Pages : Type 0 where
  pub cell : Cells
  pub pp_ref : ℕ → ℕ
  pub page_free_list : Option ℕ

-- for (i = 0; i < npages; i++) push page i; `left` is npages - i
unfoldable pub page_init_loop : ℕ → ℕ → Pages → Pages
unfolding set_cell
page_init_loop zero i s = s
page_init_loop (suc left) i s = page_init_loop left (i + 1) (record s {
  pp_ref = (λ j. if j == i then 0 else s.pp_ref j);
  cell = set_cell s.cell (link_of i) s.page_free_list;
  page_free_list = some i;
})

unfoldable pub page_init : ℕ → Pages → Pages
unfolding page_init_loop
page_init npages s = page_init_loop npages 0 s

-- as the repository has them: neither is written yet
unfoldable pub page_alloc : ℕ → Pages → Option ℕ × Pages
page_alloc flags s = (none, s)

unfoldable pub page_free : ℕ → Pages → Pages
page_free page s = s

-- pp_ref is a uint16_t
unfoldable pub page_decref : ℕ → Pages → Pages
unfolding page_free
page_decref page s =
    let s' = record s {
      pp_ref = (λ j. if j == page then (s.pp_ref page + 65535) % 65536 else s.pp_ref j);
    } in
    if s'.pp_ref page == 0 then page_free page s' else s'

-- PDX(page2pa(pp)) >= pdx_limit
unfoldable pub is_high : ℕ → ℕ → Bool
unfolding pdx page2pa
is_high limit page = leb limit (pdx (page2pa page))

-- for (pp = page_free_list; pp; pp = pp->pp_link) { *tp[pagetype] = pp; tp[pagetype] = &pp->pp_link; }
-- with the tails tp[0] and tp[1]; `none` says that the fuel ran out
unfoldable pub split_loop : ℕ → ℕ → Option ℕ → ℕ → ℕ → Cells → Option (ℕ × ℕ × Cells)
unfolding set_cell
split_loop zero limit p t0 t1 cell = none
split_loop (suc f) limit p t0 t1 cell = elim p [
  | none ↦ some (t0, t1, cell)
  | some q ↦ elim (is_high limit q) [
    | true ↦
        let cell' = set_cell cell t1 (some q) in
        split_loop f limit (cell' (link_of q)) t0 (link_of q) cell'
    | false ↦
        let cell' = set_cell cell t0 (some q) in
        split_loop f limit (cell' (link_of q)) (link_of q) t1 cell'
  ]
]

-- *tp[1] = 0; *tp[0] = pp2; page_free_list = pp1;
join : ℕ → ℕ → Cells → Cells
join t0 t1 cell = let cell' = set_cell cell t1 none in set_cell cell' t0 (cell' 1)

-- check_page_free_list(1), its reordering
unfoldable pub low_pages_first : ℕ → Pages → Option Pages
unfolding split_loop join
low_pages_first f s = elim (split_loop f 1 s.page_free_list 0 1 s.cell) [
  | none ↦ none
  | some (t0, t1, cell) ↦
      some (record s { cell = join t0 t1 cell; page_free_list = join t0 t1 cell 0 })
]

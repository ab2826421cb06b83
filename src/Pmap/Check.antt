-- ===== src/Pmap/Check.antt =====
-- boot_alloc, check_page_free_list and mem_init of kern/pmap.c. A pointer to a page is the page's
-- index, so that the assertions pp >= pages and on the alignment of pp hold by themselves; the array
-- of pages is apart from the memory that the check fills.
pub mod FreeList
pub mod Parts
pub mod Accepts
pub mod Alloc
use vukernelprogramming.Prelude.{
  ℕ, List, zero, suc, ◌+◌, ◌-◌, Bool, true, false, Option, none, some, ltb, leb, ◌==◌,
  if◌then◌else◌,
}
use vukernelprogramming.Memory.{Mem}
use vukernelprogramming.Ports.{Ports}
use vukernelprogramming.Printf.Events.{Event}
use vukernelprogramming.Str.Block.{memset}
use vukernelprogramming.Pmap.Address.{pgsize, iophysmem, extphysmem, round_up, kaddr, page2pa}
use vukernelprogramming.Pmap.Detect.{Memory, i386_detect_memory}
use vukernelprogramming.Pmap.Pages.{Cells, link_of, Pages, is_high, low_pages_first}
use vukernelprogramming.Pmap.Run.{
  Panic, not_finished, null_free_list, invalid_pa, outside_pages, page_zero, io_hole, ext_before,
  ext_start, kernel_page, no_basemem, no_extmem, Run, fuel_out, panic, done, ◌>>=◌, ◌>>◌,
}

-- the address of the next free byte, 0 at first; `end` is the linker's symbol. The result is NULL,
-- since the allocation is not written yet.
unfoldable pub boot_alloc : ℕ → ℕ → ℕ → ℕ × ℕ
boot_alloc end n nextfree = (0, if nextfree == 0 then round_up end pgsize else nextfree)

-- what the checks read and write
pub record Machine : Type 0 where
  pub pages : Pages
  pub mem : Mem
  pub nextfree : ℕ

module _ (npages : ℕ) where
  unfoldable pub page2kva : ℕ → Option ℕ
  page2kva page = kaddr npages (page2pa page)

  -- for (pp = page_free_list; pp; pp = pp->pp_link) memset(page2kva(pp), 0x97, 128), below the limit
  unfoldable pub poison : ℕ → ℕ → Option ℕ → Cells → Mem → Run Mem
  poison zero limit p cell m = fuel_out
  poison (suc f) limit p cell m = elim p [
    | none ↦ done m
    | some q ↦ elim (is_high limit q) [
      | true ↦ poison f limit (cell (link_of q)) cell m
      | false ↦ elim (page2kva q) [
        | none ↦ panic invalid_pa
        | some a ↦ poison f limit (cell (link_of q)) cell (memset m a 0x97 128)
      ]
    ]
  ]

  -- the assertion that fails for a page, if one does
  unfoldable pub check_page : ℕ → ℕ → Option Panic
  unfolding page2kva
  check_page first_free_page q =
      if leb npages q
      then some outside_pages
      else if page2pa q == 0
      then some page_zero
      else if page2pa q == iophysmem
      then some io_hole
      else if page2pa q == extphysmem - pgsize
      then some ext_before
      else if page2pa q == extphysmem
      then some ext_start
      else if ltb (page2pa q) extphysmem
      then none
      else elim (page2kva q) [
        | none ↦ some invalid_pa
        | some a ↦ if leb first_free_page a then none else some kernel_page
      ]

  -- the loop over the assertions, with nfree_basemem and nfree_extmem
  unfoldable pub check_loop : ℕ → ℕ → Option ℕ → Cells → ℕ → ℕ → Run (ℕ × ℕ)
  check_loop zero first p cell low high = fuel_out
  check_loop (suc f) first p cell low high = elim p [
    | none ↦ done (low, high)
    | some q ↦ elim (check_page first q) [
      | some e ↦ panic e
      | none ↦
          check_loop f first (cell (link_of q)) cell
            (if ltb (page2pa q) extphysmem then low + 1 else low)
            (if ltb (page2pa q) extphysmem then high else high + 1)
    ]
  ]

  -- assert(nfree_basemem > 0); assert(nfree_extmem > 0);
  counts_ok : ℕ → ℕ → Run (Unit {0})
  counts_ok low high =
      if low == 0 then panic no_basemem else if high == 0 then panic no_extmem else done tt

  -- the move of the low pages to the front, where it is asked for
  reorder : ℕ → Bool → Pages → Run Pages
  reorder f false s = done s
  reorder f true s = elim (low_pages_first f s) [ none ↦ fuel_out | some s' ↦ done s' ]

  unfoldable pub check_page_free_list : ℕ → ℕ → Bool → Machine → Run Machine
  unfolding reorder counts_ok
  check_page_free_list f end only_low_memory s = elim s.pages.page_free_list [
    | none ↦ panic null_free_list
    | some _ ↦ do
      pages ← reorder f only_low_memory s.pages
      m ← poison f (if only_low_memory then 1 else 1024) pages.page_free_list pages.cell s.mem
      let first = boot_alloc end 0 s.nextfree
      counts ← check_loop f first.0 pages.page_free_list pages.cell 0 0
      counts_ok counts.0 counts.1
      done (record { pages = pages; mem = m; nextfree = first.1 })
  ]

-- mem_init panics once it has the size of the memory, and has printed it
unfoldable pub mem_init :
    (ports : Ports) → ports.Device → Memory × List Event × ports.Device × Panic
mem_init ports d =
    let (memory, printed, d') = i386_detect_memory ports d in (memory, printed, d', not_finished)

-- ===== src/Pmap/Check/Accepts.antt =====
-- check_page_free_list(1) as a whole, and its verdict on the list that page_init builds.
use vukernelprogramming.Prelude.{
  ℕ, zero, suc, ◌+◌, ◌<◌, ◌≤◌, ◌≡◌, refl, Bool, true, false, ◌&&◌, none, some, List, [], ◌∷◌, ◌++◌,
  arith, ltb, ◌==◌, length, Bool-cases, inl, inr, ◌∙◌, ap,
}
use vukernelprogramming.Memory.{Mem}
use vukernelprogramming.Pmap.Pages.{Pages, low_pages_first, page_init}
use vukernelprogramming.Pmap.Pages.Chains.{
  Chain, pushed, Below, Below-NotIn, Below-suc, page_init-Chain,
}
use vukernelprogramming.Pmap.Pages.Partition.{low_of, high_of, low_pages_first-Chain}
use vukernelprogramming.Pmap.Pages.Segments.{IsNodup}
use vukernelprogramming.Pmap.Run.{
  Panic, panic, done, ◌>>◌, null_free_list, invalid_pa, no_basemem, no_extmem,
}
use vukernelprogramming.Pmap.Check.{
  Machine, poison, check_loop, check_page_free_list, counts_ok, reorder, boot_alloc,
}
use vukernelprogramming.Pmap.Check.FreeList.{
  all_free, base_pages, ext_pages, check_loop-free, check_loop-taken, poison-ends,
  poison-no_fuel_out,
}
use vukernelprogramming.Pmap.Check.Parts.{
  all_free-append, base_pages-append, ext_pages-append, all_free-parts, base_pages-parts,
  ext_pages-parts, length-parts,
}

-- every page may be free, and there is one below one megabyte and one above
abbrev pub acceptable : ℕ → List ℕ → Bool
acceptable npages xs = all_free npages xs && (ltb 0 (base_pages xs) && ltb 0 (ext_pages xs))

module _ (npages f end : ℕ) (s : Machine) (s1 : Pages) (q : ℕ)
    (some_page : s.pages.page_free_list ≡ some q)
    (moved : low_pages_first f s.pages ≡ some s1) where
  after_done :
      (m : Mem) (low high : ℕ)
      → poison npages f 1 s1.page_free_list s1.cell s.mem ≡ done m
      → check_loop npages f 0 s1.page_free_list s1.cell 0 0 ≡ done (low, high)
      → check_page_free_list npages f end true s ≡ (
          counts_ok npages low high
          >> done (record { pages = s1; mem = m; nextfree = (boot_alloc end 0 s.nextfree).1 }))
  unfolding check_page_free_list reorder boot_alloc
  after_done m low high filled looped =
      simp (some_page, moved, filled, looped, check_page_free_list, reorder, boot_alloc)

  after_poison :
      (e : Panic)
      → poison npages f 1 s1.page_free_list s1.cell s.mem ≡ panic e
      → check_page_free_list npages f end true s ≡ panic e
  unfolding check_page_free_list reorder
  after_poison e filled = simp (some_page, moved, filled, check_page_free_list, reorder)

  after_loop :
      (m : Mem) (e : Panic)
      → poison npages f 1 s1.page_free_list s1.cell s.mem ≡ done m
      → check_loop npages f 0 s1.page_free_list s1.cell 0 0 ≡ panic e
      → check_page_free_list npages f end true s ≡ panic e
  unfolding check_page_free_list reorder boot_alloc
  after_loop m e filled looped =
      simp (some_page, moved, filled, looped, check_page_free_list, reorder, boot_alloc)

counts_ok-some : (npages low high : ℕ) → 0 < low → 0 < high → counts_ok npages low high ≡ done tt
unfolding counts_ok
counts_ok-some npages low high h k = ground arith

counts_ok-none :
    (npages low high : ℕ)
    → (ltb 0 low && ltb 0 high) ≡ false
    → (e : Panic) × (counts_ok npages low high ≡ panic e)
unfolding counts_ok
counts_ok-none npages low high h = elim (Bool-cases (low == 0)) [
  | inl base ↦ (no_basemem, rw base refl)
  | inr other ↦ (no_extmem, ground arith)
]

-- the verdict on the reordered list `ys`, which is that on `xs`
verdict :
    (npages f end : ℕ) (s : Machine) (xs ys : List ℕ) (q : ℕ) (s1 : Pages)
    → npages ≤ 65536
    → s.pages.page_free_list ≡ some q
    → low_pages_first f s.pages ≡ some s1
    → Chain s1.cell s1.page_free_list ys
    → length ys < f
    → all_free npages ys ≡ all_free npages xs
    → base_pages ys ≡ base_pages xs
    → ext_pages ys ≡ ext_pages xs
    → (acceptable npages xs ≡ true
        → (s' : Machine) × (check_page_free_list npages f end true s ≡ done s')
          × Chain s'.pages.cell s'.pages.page_free_list ys)
      × (acceptable npages xs ≡ false
          → (e : Panic) × (check_page_free_list npages f end true s ≡ panic e))
verdict npages f end s xs ys q s1 small p moved chain short same base ext =
    elim (Bool-cases (all_free npages ys)) [
      | inl free ↦
          let (m, filled) =
            poison-ends npages small s1.cell f 1 s1.page_free_list ys s.mem chain short free in
          let looped =
            check_loop-free npages small s1.cell f s1.page_free_list ys 0 0 chain short free in
          let whole = after_done npages f end s s1 q p moved m _ _ filled looped in
          (
            λ h. (
              record { pages = s1; mem = m; nextfree = (boot_alloc end 0 s.nextfree).1 },
              whole
                  ∙ ap
                      (λ c.
                        c
                        >> done (record {
                          pages = s1;
                          mem = m;
                          nextfree = (boot_alloc end 0 s.nextfree).1;
                        }))
                      (counts_ok-some npages _ _ (ground arith) (ground arith)),
              chain,
            ),
            λ h.
                let (e, k) =
                  counts_ok-none npages (0 + base_pages ys) (0 + ext_pages ys) (ground arith) in
                (
                  e,
                  whole
                      ∙ ap
                          (λ c.
                            c
                            >> done (record {
                              pages = s1;
                              mem = m;
                              nextfree = (boot_alloc end 0 s.nextfree).1;
                            }))
                          k,
                ),
          )
      | inr taken ↦
          let (e, looped) =
            check_loop-taken npages small s1.cell f s1.page_free_list ys 0 0 chain short taken in
          (
            λ h. absurd (ground arith),
            λ h.
                elim (poison-no_fuel_out npages small s1.cell f 1 s1.page_free_list ys s.mem chain
                  short) [
                    | inl (m, filled) ↦
                        (e, after_loop npages f end s s1 q p moved m e filled looped)
                    | inr out ↦
                        (invalid_pa, after_poison npages f end s s1 q p moved invalid_pa out)
                  ],
          )
    ]

-- For at most 65536 pages and a free list of distinct pages shorter than the fuel, the check ends.
-- If no page of the list lies behind the last or is one of the four that are never free, and there
-- are pages below and above one megabyte, it accepts, and leaves the same pages with those of the
-- low 4 MB first; else it panics.
pub check_page_free_list-accepts :
    (npages f end : ℕ) (s : Machine) (xs : List ℕ)
    → npages ≤ 65536
    → Chain s.pages.cell s.pages.page_free_list xs
    → IsNodup xs
    → length xs < f
    → (acceptable npages xs ≡ true
        → (s' : Machine) × (check_page_free_list npages f end true s ≡ done s')
          × Chain s'.pages.cell s'.pages.page_free_list (low_of 1 xs ++ high_of 1 xs))
      × (acceptable npages xs ≡ false
          → (e : Panic) × (check_page_free_list npages f end true s ≡ panic e))
check_page_free_list-accepts npages f end s [] small c n fuel =
    (λ h. cc, λ h. (null_free_list, unfold check_page_free_list in simp (c, check_page_free_list)))
check_page_free_list-accepts npages f end s (q ∷ xs) small c n fuel =
    let (s1, moved, chain) = low_pages_first-Chain f s.pages (q ∷ xs) c n fuel in
    let ys : List ℕ = low_of 1 (q ∷ xs) ++ high_of 1 (q ∷ xs) in
    let short : length ys < f = omega (arith, length-parts npages 1 (q ∷ xs)) in
    let same : all_free npages ys ≡ all_free npages (q ∷ xs) =
      all_free-append npages (low_of 1 (q ∷ xs)) (high_of 1 (q ∷ xs))
      ∙ all_free-parts npages 1 (q ∷ xs) in
    let base : base_pages ys ≡ base_pages (q ∷ xs) =
      base_pages-append (low_of 1 (q ∷ xs)) (high_of 1 (q ∷ xs))
      ∙ base_pages-parts npages 1 (q ∷ xs) in
    let ext : ext_pages ys ≡ ext_pages (q ∷ xs) =
      ext_pages-append (low_of 1 (q ∷ xs)) (high_of 1 (q ∷ xs))
      ∙ ext_pages-parts npages 1 (q ∷ xs) in
    verdict npages f end s (q ∷ xs) ys q s1 small c.0 moved chain short same base ext

-- the list of page_init
pushed-taken :
    (npages n i : ℕ) (xs : List ℕ)
    → all_free npages xs ≡ false
    → all_free npages (pushed n i xs) ≡ false
pushed-taken npages zero i xs h = h
pushed-taken npages (suc n) i xs h = pushed-taken npages n (i + 1) (i ∷ xs) (ground arith)

pushed-IsNodup : (n i : ℕ) (xs : List ℕ) → Below i xs → IsNodup xs → IsNodup (pushed n i xs)
pushed-IsNodup zero i xs b h = h
pushed-IsNodup (suc n) i xs b h =
    pushed-IsNodup n (i + 1) (i ∷ xs) (omega arith, Below-suc i xs b) (Below-NotIn i xs b, h)

length-pushed : (n i : ℕ) (xs : List ℕ) → length (pushed n i xs) ≡ n + length xs
length-pushed zero i xs = omega arith
length-pushed (suc n) i xs = omega (arith, length-pushed n (i + 1) (i ∷ xs))

-- From an empty free list and with 1 to 65536 pages, the free list that page_init leaves is not
-- accepted: check_page_free_list panics, since page_init frees every page, page 0
-- among them.
pub check_page_free_list-page_init :
    (npages f end : ℕ) (s : Machine)
    → 0 < npages
    → npages ≤ 65536
    → npages < f
    → s.pages.page_free_list ≡ none
    → (e : Panic) × (check_page_free_list npages f end true
          (record s { pages = page_init npages s.pages })
        ≡ panic e)
check_page_free_list-page_init zero f end s some_page small fuel empty = absurd (omega arith)
check_page_free_list-page_init (suc n) f end s some_page small fuel empty =
    let taken : all_free (suc n) (pushed (suc n) 0 []) ≡ false =
      pushed-taken (suc n) n 1 (0 ∷ []) (ground arith) in
    (check_page_free_list-accepts (suc n) f end (record s { pages = page_init (suc n) s.pages })
        (pushed (suc n) 0 []) small (page_init-Chain (suc n) s.pages empty).0
        (pushed-IsNodup (suc n) 0 [] tt tt) (omega (arith, length-pushed (suc n) 0 []))).1
      (rw taken refl)

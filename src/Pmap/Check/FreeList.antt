-- ===== src/Pmap/Check/FreeList.antt =====
-- check_page_free_list accepts a free list exactly if every page on it may be free.
use vukernelprogramming.Prelude.{
  ℕ, zero, suc, ◌+◌, ◌*◌, ◌/◌, ◌%◌, ◌^◌, ◌<◌, ◌≤◌, ◌≡◌, refl, Bool, true, false, ◌&&◌, not, Option,
  none, some, List, [], ◌∷◌, arith, ltb, leb, ◌==◌, if◌then◌else◌, length, Bool-cases, Option-cases,
  inl, inr, ◌⊎◌, ◌∙◌,
}
use vukernelprogramming.Memory.{Mem}
use vukernelprogramming.Str.Block.{memset}
use vukernelprogramming.Pmap.Address.{page2pa, kaddr, pgnum}
use vukernelprogramming.Pmap.Pages.{Cells, link_of, is_high}
use vukernelprogramming.Pmap.Pages.Chains.{Chain}
use vukernelprogramming.Pmap.Run.{Panic, panic, done, invalid_pa}
use vukernelprogramming.Pmap.Check.{page2kva, poison, check_page, check_loop}

-- a page that may stand on the free list: neither the first page, nor the first of the hole for
-- devices, nor the last before or the first behind one megabyte
abbrev pub may_be_free : ℕ → ℕ → Bool
may_be_free npages q =
    ltb q npages && (not (q == 0) && (not (q == 160) && (not (q == 255) && not (q == 256))))

abbrev pub all_free : ℕ → List ℕ → Bool
all_free npages [] = true
all_free npages (q ∷ xs) = may_be_free npages q && all_free npages xs

-- the pages below one megabyte, and the others
abbrev pub base_pages : List ℕ → ℕ
base_pages [] = 0
base_pages (q ∷ xs) = (if ltb q 256 then 1 else 0) + base_pages xs

abbrev pub ext_pages : List ℕ → ℕ
ext_pages [] = 0
ext_pages (q ∷ xs) = (if ltb q 256 then 0 else 1) + ext_pages xs

pub page2pa-eq : (q : ℕ) → q < 65536 → page2pa q ≡ q * 4096
unfolding page2pa
page2pa-eq q h = omega arith

pub page2kva-some :
    (npages q : ℕ) → npages ≤ 65536 → q < npages → (a : ℕ) × (page2kva npages q ≡ some a)
unfolding page2kva kaddr pgnum
page2kva-some npages q n h =
    let e = page2pa-eq q (omega arith) in
    let b : leb npages (page2pa q / 2 ^ 12) ≡ false = ground arith in
    ((page2pa q + 0xF0000000) % 2 ^ 32, rw (b) refl)

check_page-free :
    (npages q : ℕ) → npages ≤ 65536 → may_be_free npages q ≡ true → check_page npages 0 q ≡ none
unfolding check_page
check_page-free npages q n h =
    let (a, k) = page2kva-some npages q n (ground arith) in
    let e = page2pa-eq q (ground arith) in rw (k) (ground arith)

check_page-none :
    (npages q : ℕ) → npages ≤ 65536 → check_page npages 0 q ≡ none → may_be_free npages q ≡ true
unfolding check_page
check_page-none npages q n h =
    let e : q < 65536 → page2pa q ≡ q * 4096 = page2pa-eq q in
    elim (Bool-cases (leb npages q)) [
      | inl out ↦ absurd (cc (rw out at h))
      | inr within ↦ let k = e (ground arith) in ground arith
    ]

check_page-taken :
    (npages q : ℕ)
    → npages ≤ 65536
    → may_be_free npages q ≡ false
    → (e : Panic) × (check_page npages 0 q ≡ some e)
check_page-taken npages q n h = elim (Option-cases (check_page npages 0 q)) [
  | inl nothing ↦ absurd (cc (check_page-none npages q n nothing))
  | inr failed ↦ failed
]

module _ (npages : ℕ) (small : npages ≤ 65536) (cell : Cells) where
  base-eq : (q : ℕ) → q < npages → ltb (page2pa q) 0x100000 ≡ ltb q 256
  base-eq q h = let e = page2pa-eq q (omega arith) in ground arith

  pub check_loop-free :
      (f : ℕ) (p : Option ℕ) (xs : List ℕ) (low high : ℕ)
      → Chain cell p xs
      → length xs < f
      → all_free npages xs ≡ true
      → check_loop npages f 0 p cell low high ≡ done (low + base_pages xs, high + ext_pages xs)
  unfolding check_loop
  check_loop-free zero p xs low high c fuel h = absurd (omega arith)
  check_loop-free (suc f) p [] low high c fuel h = rw (c, check_loop) (ground arith)
  check_loop-free (suc f) p (q ∷ xs) low high c fuel h =
      let ok : may_be_free npages q ≡ true = ground arith in
      rw (c.0, check_page-free npages q small ok, base-eq q (ground arith), check_loop)
        (check_loop-free f (cell (link_of q)) xs (if ltb q 256 then low + 1 else low)
            (if ltb q 256 then high else high + 1) c.1 (omega arith) (ground arith)
          ∙ ground arith)

  pub check_loop-taken :
      (f : ℕ) (p : Option ℕ) (xs : List ℕ) (low high : ℕ)
      → Chain cell p xs
      → length xs < f
      → all_free npages xs ≡ false
      → (e : Panic) × (check_loop npages f 0 p cell low high ≡ panic e)
  unfolding check_loop
  check_loop-taken zero p xs low high c fuel h = absurd (omega arith)
  check_loop-taken (suc f) p [] low high c fuel h = cc
  check_loop-taken (suc f) p (q ∷ xs) low high c fuel h = elim (Bool-cases (may_be_free npages q)) [
    | inl ok ↦
        rw (c.0, check_page-free npages q small ok, check_loop)
          (check_loop-taken f (cell (link_of q)) xs _ _ c.1 (omega arith) (rw ok at h))
    | inr bad ↦
        let (e, k) = check_page-taken npages q small bad in (e, rw (c.0, k, check_loop) refl)
  ]

  -- the filling ends, or panics at a page behind the last
  pub poison-ends :
      (f limit : ℕ) (p : Option ℕ) (xs : List ℕ) (m : Mem)
      → Chain cell p xs
      → length xs < f
      → all_free npages xs ≡ true
      → (m' : Mem) × (poison npages f limit p cell m ≡ done m')
  unfolding poison
  poison-ends zero limit p xs m c fuel h = absurd (omega arith)
  poison-ends (suc f) limit p [] m c fuel h = (m, rw (c, poison) refl)
  poison-ends (suc f) limit p (q ∷ xs) m c fuel h = elim (Bool-cases (is_high limit q)) [
    | inl up ↦
        rw (c.0, up, poison)
          (poison-ends f limit (cell (link_of q)) xs m c.1 (omega arith) (ground arith))
    | inr down ↦
        let (a, k) = page2kva-some npages q small (ground arith) in
        rw (c.0, down, k, poison)
          (poison-ends f limit (cell (link_of q)) xs (memset m a 0x97 128) c.1 (omega arith)
            (ground arith))
  ]

  pub poison-no_fuel_out :
      (f limit : ℕ) (p : Option ℕ) (xs : List ℕ) (m : Mem)
      → Chain cell p xs
      → length xs < f
      → ((m' : Mem) × (poison npages f limit p cell m ≡ done m'))
        ⊎ (poison npages f limit p cell m ≡ panic invalid_pa)
  unfolding poison
  poison-no_fuel_out zero limit p xs m c fuel = absurd (omega arith)
  poison-no_fuel_out (suc f) limit p [] m c fuel = inl (m, rw (c, poison) refl)
  poison-no_fuel_out (suc f) limit p (q ∷ xs) m c fuel = elim (Bool-cases (is_high limit q)) [
    | inl up ↦
        rw (c.0, up, poison) (poison-no_fuel_out f limit (cell (link_of q)) xs m c.1 (omega arith))
    | inr down ↦ elim (Option-cases (page2kva npages q)) [
      | inl nowhere ↦ inr (rw (c.0, down, nowhere, poison) refl)
      | inr (a, k) ↦
          rw (c.0, down, k, poison)
            (poison-no_fuel_out f limit (cell (link_of q)) xs (memset m a 0x97 128) c.1
              (omega arith))
    ]
  ]

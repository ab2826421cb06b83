-- ===== src/Pmap/Pages/Chains.antt =====
-- Lists of pages through cells, and the free list that page_init builds.
use vukernelprogramming.Prelude.{
  ℕ, zero, suc, ◌+◌, ◌<◌, ◌≡◌, ◌≢◌, refl, Option, none, some, List, [], ◌∷◌, arith, leb, ◌==◌,
  if◌then◌else◌,
}
use vukernelprogramming.Pmap.Pages.{Cells, link_of, set_cell, Pages, page_init_loop, page_init}

-- from the pointer `p` the links lead through the pages `xs` to NULL
abbrev pub Chain : Cells → Option ℕ → List ℕ → Type 0
Chain cell p [] = p ≡ none
Chain cell p (x ∷ xs) = (p ≡ some x) × Chain cell (cell (link_of x)) xs

abbrev pub NotIn : ℕ → List ℕ → Type 0
NotIn a [] = Unit {0}
NotIn a (x ∷ xs) = (a ≢ x) × NotIn a xs

pub Chain-set_cell :
    (cell : Cells) (q : ℕ) (v p : Option ℕ) (xs : List ℕ)
    → NotIn q xs
    → Chain cell p xs
    → Chain (set_cell cell (link_of q) v) p xs
unfolding set_cell
Chain-set_cell cell q v p [] n h = h
Chain-set_cell cell q v p (x ∷ xs) n h = (
  h.0,
  let e : set_cell cell (link_of q) v (link_of x) ≡ cell (link_of x) = ground (arith, n.0) in
      rw e (Chain-set_cell cell q v (cell (link_of x)) xs n.1 h.1),
)

-- the pages from `i` on, the last one first, before the pages `xs`
abbrev pub pushed : ℕ → ℕ → List ℕ → List ℕ
pushed zero i xs = xs
pushed (suc n) i xs = pushed n (i + 1) (i ∷ xs)

-- every page of the list is below `i`
abbrev pub Below : ℕ → List ℕ → Type 0
Below i [] = Unit {0}
Below i (x ∷ xs) = (x < i) × Below i xs

pub Below-NotIn : (i : ℕ) (xs : List ℕ) → Below i xs → NotIn i xs
Below-NotIn i [] h = tt
Below-NotIn i (x ∷ xs) h = (λ e. omega (arith, h.0), Below-NotIn i xs h.1)

pub Below-suc : (i : ℕ) (xs : List ℕ) → Below i xs → Below (i + 1) xs
Below-suc i [] h = tt
Below-suc i (x ∷ xs) h = (omega (arith, h.0), Below-suc i xs h.1)

page_init_loop-Chain :
    (n i : ℕ) (s : Pages) (xs : List ℕ)
    → Below i xs
    → Chain s.cell s.page_free_list xs
    → Chain (page_init_loop n i s).cell (page_init_loop n i s).page_free_list (pushed n i xs)
unfolding page_init_loop
page_init_loop-Chain zero i s xs b h = h
page_init_loop-Chain (suc n) i s xs b h =
    page_init_loop-Chain n (i + 1) _ (i ∷ xs) (omega arith, Below-suc i xs b) (refl, here)
  where
    here :
        Chain
          (set_cell s.cell (link_of i) s.page_free_list)
          (set_cell s.cell (link_of i) s.page_free_list (link_of i))
          xs
    here =
        let e : set_cell s.cell (link_of i) s.page_free_list (link_of i) ≡ s.page_free_list =
          ground arith in
        rw e (Chain-set_cell s.cell i s.page_free_list s.page_free_list xs (Below-NotIn i xs b) h)

page_init_loop-refs :
    (n i : ℕ) (s : Pages) (j : ℕ)
    → (page_init_loop n i s).pp_ref j
      ≡ (if leb i j then (if leb (i + n) j then s.pp_ref j else 0) else s.pp_ref j)
unfolding page_init_loop
page_init_loop-refs zero i s j = ground arith
page_init_loop-refs (suc n) i s j = ground (
  arith,
  page_init_loop-refs n (i + 1)
      (record s {
        pp_ref = (λ j. if j == i then 0 else s.pp_ref j);
        cell = set_cell s.cell (link_of i) s.page_free_list;
        page_free_list = some i;
      })
      j,
)

-- From an empty free list page_init leaves one with every page once, the last page first, and with
-- the reference count 0 for each page.
pub page_init-Chain :
    (npages : ℕ) (s : Pages)
    → s.page_free_list ≡ none
    → Chain (page_init npages s).cell (page_init npages s).page_free_list (pushed npages 0 [])
      × ((j : ℕ) → j < npages → (page_init npages s).pp_ref j ≡ 0)
unfolding page_init
page_init-Chain npages s e = (
  page_init_loop-Chain npages 0 s [] tt e,
  λ j h. ground (arith, page_init_loop-refs npages 0 s j),
)

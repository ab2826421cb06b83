-- ===== src/Pmap/Pages/Partition.antt =====
-- The reordering of check_page_free_list keeps all free pages, those of the low memory first.
use mathlib.Core.List.{append_assoc, append-nil}
use vukernelprogramming.Prelude.{
  ℕ, zero, suc, ◌<◌, ◌≡◌, ◌≢◌, refl, true, false, Option, none, some, List, [], ◌∷◌, ◌++◌, arith,
  if◌then◌else◌, length, subst, sym, ◌∙◌, Bool-cases, inl, inr,
}
use vukernelprogramming.Pmap.Pages.{
  Cells, link_of, set_cell, Pages, is_high, split_loop, join, low_pages_first,
}
use vukernelprogramming.Pmap.Pages.Chains.{Chain}
use vukernelprogramming.Pmap.Pages.Segments.{
  set_cell_other, set_cell_self, Seg-set_cell, Seg-Chain, IsNodup, AllFresh, Two, Two-swap,
  Two-snoc,
}

-- the pages of one kind, in their order
abbrev pub low_of : ℕ → List ℕ → List ℕ
low_of limit [] = []
low_of limit (q ∷ rest) = if is_high limit q then low_of limit rest else q ∷ low_of limit rest

abbrev pub high_of : ℕ → List ℕ → List ℕ
high_of limit [] = []
high_of limit (q ∷ rest) = if is_high limit q then q ∷ high_of limit rest else high_of limit rest

-- the loop ends with the low pages behind the cell 0 and the high pages behind the cell 1
abbrev Splits : List ℕ → List ℕ → Option (ℕ × ℕ × Cells) → Type 0
Splits ls hs o =
    (t0 : ℕ) × (t1 : ℕ) × (cell : Cells) × (o ≡ some (t0, t1, cell))
    × Two 0 1 t0 t1 ls hs [] none cell

module _ (f limit t0 t1 : ℕ) (cell : Cells) where
  split_loop-end : split_loop (suc f) limit none t0 t1 cell ≡ some (t0, t1, cell)
  unfolding split_loop
  split_loop-end = refl

  split_loop-high :
      (q : ℕ)
      → is_high limit q ≡ true
      → split_loop (suc f) limit (some q) t0 t1 cell
        ≡ split_loop f limit
            (set_cell cell t1 (some q) (link_of q))
            t0
            (link_of q)
            (set_cell cell t1 (some q))
  unfolding split_loop
  split_loop-high q e = rw (e, split_loop) refl

  split_loop-low :
      (q : ℕ)
      → is_high limit q ≡ false
      → split_loop (suc f) limit (some q) t0 t1 cell
        ≡ split_loop f limit
            (set_cell cell t0 (some q) (link_of q))
            (link_of q)
            t1
            (set_cell cell t0 (some q))
  unfolding split_loop
  split_loop-low q e = rw (e, split_loop) refl

split_loop-Splits :
    (f limit : ℕ) (t0 t1 : ℕ) (ls hs rest : List ℕ) (p : Option ℕ) (cell : Cells)
    → Two 0 1 t0 t1 ls hs rest p cell
    → length rest < f
    → Splits (ls ++ low_of limit rest) (hs ++ high_of limit rest) (split_loop f limit p t0 t1 cell)
split_loop-Splits zero limit t0 t1 ls hs rest p cell h fuel = absurd (omega arith)
split_loop-Splits (suc f) limit t0 t1 ls hs [] p cell h fuel =
    rw (append-nil ls, append-nil hs)
      (
        t0,
        t1,
        cell,
        rw h.chain (split_loop-end f limit t0 t1 cell),
        subst (λ o. Two 0 1 t0 t1 ls hs [] o cell) h.chain h,
      )
split_loop-Splits (suc f) limit t0 t1 ls hs (q ∷ rest) p cell h fuel =
    elim (Bool-cases (is_high limit q)) [
      | inl high ↦
          let k =
            Two-swap 1 0 _ _ _ _ _ _ _
              (Two-snoc 1 0 t1 t0 q hs ls rest p cell (Two-swap 0 1 _ _ _ _ _ _ _ h)) in
          let r =
            split_loop-Splits f limit t0 (link_of q) ls (hs ++ (q ∷ [])) rest _ _ k (omega arith) in
          rw
            (
              high,
              ← append_assoc hs (q ∷ []) (high_of limit rest),
              h.chain.0,
              split_loop-high f limit t0 t1 cell q high,
            )
            r
      | inr low ↦
          let k = Two-snoc 0 1 t0 t1 q ls hs rest p cell h in
          let r =
            split_loop-Splits f limit (link_of q) t1 (ls ++ (q ∷ [])) hs rest _ _ k (omega arith) in
          rw
            (
              low,
              ← append_assoc ls (q ∷ []) (low_of limit rest),
              h.chain.0,
              split_loop-low f limit t0 t1 cell q low,
            )
            r
    ]

tail-ne-one :
    (t0 t1 : ℕ) (ls hs : List ℕ) (cell : Cells) → Two 0 1 t0 t1 ls hs [] none cell → t0 ≢ 1
tail-ne-one t0 t1 ls [] cell h e = h.tails (e ∙ h.seg_b)
tail-ne-one t0 t1 ls (x ∷ hs) cell h e = h.a_b.0 e

-- the walks of the two lists joined
join-Chain :
    (t0 t1 : ℕ) (ls hs : List ℕ) (cell : Cells)
    → Two 0 1 t0 t1 ls hs [] none cell
    → Chain (join t0 t1 cell) (join t0 t1 cell 0) (ls ++ hs)
unfolding join
join-Chain t0 t1 ls hs cell h =
    let c1 = set_cell cell t1 none in
    let s1 = Seg-set_cell cell t1 0 t0 none ls h.b_a h.seg_a in
    let s2 = Seg-set_cell c1 t0 0 t0 (c1 1) ls h.a_a s1 in
    let u1 = Seg-set_cell cell t1 1 t1 none hs h.b_b h.seg_b in
    let u2 = Seg-set_cell c1 t0 1 t1 (c1 1) hs h.a_b u1 in
    let c2 = set_cell c1 t0 (c1 1) in
    let end : c2 t1 ≡ none =
      set_cell_other c1 t0 t1 (c1 1) h.tails ∙ set_cell_self cell t1 t1 none refl in
    let highs : Chain c2 (c2 1) hs =
      subst (λ l. Chain c2 (c2 1) l) (append-nil hs) (Seg-Chain c2 1 t1 hs [] u2 end) in
    let first : c2 t0 ≡ c2 1 =
      set_cell_self c1 t0 t0 (c1 1) refl
      ∙ sym (set_cell_other c1 t0 1 (c1 1) (tail-ne-one t0 t1 ls hs cell h)) in
    Seg-Chain c2 0 t0 ls hs s2 (subst (λ o. Chain c2 o hs) (sym first) highs)

fresh_all : (xs : List ℕ) → AllFresh 0 1 0 1 [] [] xs
fresh_all [] = tt
fresh_all (x ∷ xs) = ((omega arith, omega arith, tt, tt), fresh_all xs)

-- With a free list of distinct pages, fewer than the fuel, the reordering of check_page_free_list
-- ends with a free list of the same pages: first those under the limit of one page directory
-- entry (4 MB), then the others, each kind in its old order.
pub low_pages_first-Chain :
    (f : ℕ) (s : Pages) (xs : List ℕ)
    → Chain s.cell s.page_free_list xs
    → IsNodup xs
    → length xs < f
    → (s' : Pages) × (low_pages_first f s ≡ some s')
      × Chain s'.cell s'.page_free_list (low_of 1 xs ++ high_of 1 xs)
unfolding low_pages_first
low_pages_first-Chain f s xs h n fuel =
    let two : Two 0 1 0 1 [] [] xs s.page_free_list s.cell = record {
      seg_a = refl;
      seg_b = refl;
      a_a = tt;
      a_b = tt;
      b_a = tt;
      b_b = tt;
      tails = λ e. omega arith;
      chain = h;
      fresh = fresh_all xs;
      nodup = n;
    } in
    let (t0, t1, cell, e, r) =
      split_loop-Splits f 1 0 1 [] [] xs s.page_free_list s.cell two fuel in
    (
      record s { cell = join t0 t1 cell; page_free_list = join t0 t1 cell 0 },
      rw (e, low_pages_first) refl,
      join-Chain t0 t1 (low_of 1 xs) (high_of 1 xs) cell r,
    )

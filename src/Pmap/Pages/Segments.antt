-- ===== src/Pmap/Pages/Segments.antt =====
-- Lists of pages through cells, for the reordering of check_page_free_list in kern/pmap.c: two lists
-- that grow at their tails while a third is taken apart.
use vukernelprogramming.Prelude.{
  ℕ, ◌≡◌, ◌≢◌, refl, Option, some, List, [], ◌∷◌, ◌++◌, arith, subst, sym, ◌∙◌,
}
use vukernelprogramming.Pmap.Pages.{Cells, link_of, set_cell}
use vukernelprogramming.Pmap.Pages.Chains.{Chain, NotIn}

-- from the cell `a` the links lead through the pages `xs` to the cell `t`
abbrev Seg : Cells → ℕ → List ℕ → ℕ → Type 0
Seg cell a [] t = a ≡ t
Seg cell a (x ∷ xs) t = (cell a ≡ some x) × Seg cell (link_of x) xs t

-- the cell `w` is none of those that such a walk reads
abbrev Avoids : ℕ → ℕ → List ℕ → Type 0
Avoids w a [] = Unit {0}
Avoids w a (x ∷ xs) = (w ≢ a) × Avoids w (link_of x) xs

pub set_cell_other : (cell : Cells) (w a : ℕ) (v : Option ℕ) → w ≢ a → set_cell cell w v a ≡ cell a
unfolding set_cell
set_cell_other cell w a v n = ground arith

pub set_cell_self : (cell : Cells) (w a : ℕ) (v : Option ℕ) → a ≡ w → set_cell cell w v a ≡ v
unfolding set_cell
set_cell_self cell w a v e = ground arith

pub Seg-set_cell :
    (cell : Cells) (w a t : ℕ) (v : Option ℕ) (xs : List ℕ)
    → Avoids w a xs
    → Seg cell a xs t
    → Seg (set_cell cell w v) a xs t
Seg-set_cell cell w a t v [] n h = h
Seg-set_cell cell w a t v (x ∷ xs) n h =
    (set_cell_other cell w a v n.0 ∙ h.0, Seg-set_cell cell w (link_of x) t v xs n.1 h.1)

Seg-snoc :
    (cell : Cells) (a t q : ℕ) (xs : List ℕ)
    → Avoids t a xs
    → Seg cell a xs t
    → Seg (set_cell cell t (some q)) a (xs ++ (q ∷ [])) (link_of q)
Seg-snoc cell a t q [] n h = (set_cell_self cell t a (some q) h, refl)
Seg-snoc cell a t q (x ∷ xs) n h =
    (set_cell_other cell t a (some q) n.0 ∙ h.0, Seg-snoc cell (link_of x) t q xs n.1 h.1)

Avoids-snoc :
    (cell : Cells) (w a t q : ℕ) (xs : List ℕ)
    → Seg cell a xs t
    → Avoids w a xs
    → w ≢ t
    → Avoids w a (xs ++ (q ∷ []))
Avoids-snoc cell w a t q [] h n o = ((λ e. o (e ∙ h)), tt)
Avoids-snoc cell w a t q (x ∷ xs) h n o = (n.0, Avoids-snoc cell w (link_of x) t q xs h.1 n.1 o)

pub Seg-Chain :
    (cell : Cells) (a t : ℕ) (xs ys : List ℕ)
    → Seg cell a xs t
    → Chain cell (cell t) ys
    → Chain cell (cell a) (xs ++ ys)
Seg-Chain cell a t [] ys h k = subst (λ b. Chain cell (cell b) ys) (sym h) k
Seg-Chain cell a t (x ∷ xs) ys h k = (h.0, Seg-Chain cell (link_of x) t xs ys h.1 k)

abbrev pub IsNodup : List ℕ → Type 0
IsNodup [] = Unit {0}
IsNodup (x ∷ xs) = NotIn x xs × IsNodup xs

-- two lists from the cells `a` and `b` with the tails `ta` and `tb`, which later writes go to
module _ (a b : ℕ) where
  abbrev Fresh : ℕ → ℕ → List ℕ → List ℕ → ℕ → Type 0
  Fresh ta tb la lb q =
      (link_of q ≢ ta) × (link_of q ≢ tb) × Avoids (link_of q) a la × Avoids (link_of q) b lb

  abbrev pub AllFresh : ℕ → ℕ → List ℕ → List ℕ → List ℕ → Type 0
  AllFresh ta tb la lb [] = Unit {0}
  AllFresh ta tb la lb (q ∷ rest) = Fresh ta tb la lb q × AllFresh ta tb la lb rest

  pub record Two (ta tb : ℕ) (la lb rest : List ℕ) (p : Option ℕ) (cell : Cells) : Type 0 where
    pub seg_a : Seg cell a la ta
    pub seg_b : Seg cell b lb tb
    pub a_a : Avoids ta a la
    pub a_b : Avoids ta b lb
    pub b_a : Avoids tb a la
    pub b_b : Avoids tb b lb
    pub tails : ta ≢ tb
    pub chain : Chain cell p rest
    pub fresh : AllFresh ta tb la lb rest
    pub nodup : IsNodup rest

AllFresh-swap :
    (a b ta tb : ℕ) (la lb rest : List ℕ)
    → AllFresh a b ta tb la lb rest
    → AllFresh b a tb ta lb la rest
AllFresh-swap a b ta tb la lb [] h = tt
AllFresh-swap a b ta tb la lb (q ∷ rest) h =
    ((h.0.1, h.0.0, h.0.3, h.0.2), AllFresh-swap a b ta tb la lb rest h.1)

pub Two-swap :
    (a b ta tb : ℕ) (la lb rest : List ℕ) (p : Option ℕ) (cell : Cells)
    → Two a b ta tb la lb rest p cell
    → Two b a tb ta lb la rest p cell
Two-swap a b ta tb la lb rest p cell h = record {
  seg_a = h.seg_b;
  seg_b = h.seg_a;
  a_a = h.b_b;
  a_b = h.b_a;
  b_a = h.a_b;
  b_b = h.a_a;
  tails = λ e. h.tails (sym e);
  chain = h.chain;
  fresh = AllFresh-swap a b ta tb la lb rest h.fresh;
  nodup = h.nodup;
}

Chain-write :
    (a b ta tb : ℕ) (la lb rest : List ℕ) (p v : Option ℕ) (cell : Cells)
    → AllFresh a b ta tb la lb rest
    → Chain cell p rest
    → Chain (set_cell cell ta v) p rest
Chain-write a b ta tb la lb [] p v cell f h = h
Chain-write a b ta tb la lb (q ∷ rest) p v cell f h = (
  h.0,
  rw (set_cell_other cell ta (link_of q) v (λ e. f.0.0 (sym e)))
      (Chain-write a b ta tb la lb rest (cell (link_of q)) v cell f.1 h.1),
)

AllFresh-snoc :
    (a b ta tb q : ℕ) (la lb rest : List ℕ) (cell : Cells)
    → Seg cell a la ta
    → NotIn q rest
    → AllFresh a b ta tb la lb rest
    → AllFresh a b (link_of q) tb (la ++ (q ∷ [])) lb rest
AllFresh-snoc a b ta tb q la lb [] cell s n f = tt
AllFresh-snoc a b ta tb q la lb (r ∷ rest) cell s n f = (
  ((λ e. n.0 (omega arith)), f.0.1, Avoids-snoc cell (link_of r) a ta q la s f.0.2 f.0.0, f.0.3),
  AllFresh-snoc a b ta tb q la lb rest cell s n.1 f.1,
)

-- *ta = q; ta = &q->pp_link; p = q->pp_link;
pub Two-snoc :
    (a b ta tb q : ℕ) (la lb rest : List ℕ) (p : Option ℕ) (cell : Cells)
    → Two a b ta tb la lb (q ∷ rest) p cell
    → Two a b
        (link_of q)
        tb
        (la ++ (q ∷ []))
        lb
        rest
        (set_cell cell ta (some q) (link_of q))
        (set_cell cell ta (some q))
Two-snoc a b ta tb q la lb rest p cell h =
    let (f, fs) = h.fresh in
    record {
      seg_a = Seg-snoc cell a ta q la h.a_a h.seg_a;
      seg_b = Seg-set_cell cell ta b tb (some q) lb h.a_b h.seg_b;
      a_a = Avoids-snoc cell (link_of q) a ta q la h.seg_a f.2 f.0;
      a_b = f.3;
      b_a = Avoids-snoc cell tb a ta q la h.seg_a h.b_a (λ e. h.tails (sym e));
      b_b = h.b_b;
      tails = f.1;
      chain = (Chain-write a b ta tb la lb (q ∷ rest) p (some q) cell h.fresh h.chain).1;
      fresh = AllFresh-snoc a b ta tb q la lb rest cell h.seg_a h.nodup.0 fs;
      nodup = h.nodup.1;
    }

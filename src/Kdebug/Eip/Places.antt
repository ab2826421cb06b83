-- ===== src/Kdebug/Eip/Places.antt =====
-- Where the searches of debuginfo_eip end, for an address with a file and a function.
use vukernelprogramming.Prelude.{
  ℕ, zero, suc, ◌+◌, ◌^◌, ◌≤◌, ◌<◌, ◌≡◌, refl, false, some, ltb, arith, Bool-cases, inl, inr, ◌⊎◌,
  ap, sym, subst, ◌∙◌,
}
use vukernelprogramming.Prelude.Int.{ℤ, pos, pred_ℕ, above}
use vukernelprogramming.Kdebug.{Stabs}
use vukernelprogramming.Kdebug.Search.{Region, stab_binsearch}
use vukernelprogramming.Kdebug.Search.Scans.{NoStab}
use vukernelprogramming.Kdebug.Search.Rounds.{Gap}
use vukernelprogramming.Kdebug.Search.Sorted.{
  AtOrBelow, IsSorted, Brackets, stab_binsearch-Brackets,
}
use vukernelprogramming.Kdebug.Eip.{n_fun, n_so, n_sline}

-- The last file stab at or below the address is `i`, the last function stab is `j` behind it, and
-- `stop` is the next file or function stab, above the address, or the end of the table.
pub record Place (stabs : Stabs) (count addr i j stop : ℕ) : Type 0 where
  pub file : AtOrBelow stabs n_so addr i
  pub function : AtOrBelow stabs n_fun addr j
  pub order : (i < j) × (j < stop) × (stop ≤ count)
  pub no_file : NoStab stabs n_so (suc i) stop
  pub no_function : NoStab stabs n_fun (suc j) stop
  pub last_file : (x : ℕ) → i < x → x < count → (stabs x).n_type ≡ n_so → addr < (stabs x).n_value
  pub last_function :
      (x : ℕ) → j < x → x < count → (stabs x).n_type ≡ n_fun → addr < (stabs x).n_value
  pub ends : (stop ≡ count) ⊎ (((stabs stop).n_type ≡ n_so) ⊎ ((stabs stop).n_type ≡ n_fun))

-- the last of the stabs at or below the address is the one that is known to be the last
last-eq :
    (stabs : Stabs) (type l h addr k k' : ℕ)
    → ((x : ℕ) → l ≤ x → x < h → AtOrBelow stabs type addr x → x ≤ k')
    → AtOrBelow stabs type addr k
    → l ≤ k
    → k < h
    → AtOrBelow stabs type addr k'
    → k' < h
    → ((x : ℕ) → k < x → x < h → (stabs x).n_type ≡ type → addr < (stabs x).n_value)
    → k' ≡ k
last-eq stabs type l h addr k k' last b lo hi b' hi' above_addr = elim (Bool-cases (ltb k k')) [
  | inl lt ↦ absurd (omega (arith, above_addr k' (ground arith) hi' b'.0, b'.1))
  | inr ge ↦ omega (arith, last k lo hi b, ltb-ge k k' ge)
]
  where
    ltb-ge : (a b : ℕ) → ltb a b ≡ false → b ≤ a
    ltb-ge a b h = ground arith

above-pred : (n : ℕ) → above (pred_ℕ n) ≡ n
above-pred zero = refl
above-pred (suc n) = refl

module _ (stabs : Stabs) (count addr i j stop : ℕ) (place : Place stabs count addr i j stop)
    (room : addr + 1 < 2 ^ 32) (f : ℕ) (fuel : count + 1 < f) where
  open place use {file, function, order, no_file, no_function, last_file, last_function, ends}

  -- the search for the file gives `i`, and a right end before `stop` or behind it
  pub find_file :
      IsSorted stabs n_so 0 count
      → Gap stabs n_so 0 count addr
      → (res : Region) × (stab_binsearch stabs n_so f 0 (pred_ℕ count) addr ≡ some res)
        × (res.left ≡ pos i)
        × (stop ≤ above res.right)
        × (above res.right ≤ count)
        × ((stabs stop).n_type ≡ n_so → above res.right ≤ stop)
  find_file sorted gap =
      let e = above-pred count in
      let (res, run, (i', l, li, ir, b, last, clear, stops, u)) =
        stab_binsearch-Brackets stabs n_so 0 (pred_ℕ count) addr f room
          (subst (λ h. Gap stabs n_so 0 h addr) (sym e) gap) (omega (arith, e))
          (subst (IsSorted stabs n_so 0) (sym e) sorted) i (omega arith) (omega (arith, e, order))
          file in
      let same : i' ≡ i =
        last-eq stabs n_so 0 count addr i i' (λ x lo hi. last x lo (omega (arith, e))) file
          (omega arith) (omega (arith, order)) b (omega (arith, e)) last_file in
      let behind : stop ≤ above res.right = elim (Bool-cases (ltb (above res.right) stop)) [
        | inr ge ↦ ground arith
        | inl lt ↦ elim stops [
          | inl all ↦ absurd (ground (arith, ap above all, e, order))
          | inr (t, v) ↦ absurd (no_file (above res.right) (omega (arith, same)) (ground arith) t)
        ]
      ] in
      (
        res,
        run,
        l ∙ ap pos same,
        behind,
        omega (arith, e),
        λ t. elim (Bool-cases (ltb stop (above res.right))) [
          | inl lt ↦ absurd (clear stop (omega (arith, same, order)) (ground arith) t)
          | inr ge ↦ ground arith
        ],
      )

  -- the search for the function in that region gives `j`, and `stop` as its end
  pub find_function :
      (r : ℤ)
      → stop ≤ above r
      → above r ≤ count
      → ((stabs stop).n_type ≡ n_so → above r ≤ stop)
      → IsSorted stabs n_fun 0 count
      → Gap stabs n_fun 0 count addr
      → (res : Region) × (stab_binsearch stabs n_fun f i r addr ≡ some res)
        × (res.left ≡ pos j)
        × (above res.right ≡ stop)
  find_function r behind within so_stop sorted gap =
      let (res, run, (j', l, li, jr, b, last, clear, stops, u)) =
        stab_binsearch-Brackets stabs n_fun i r addr f room
          (λ x lo hi t. gap x (omega arith) (omega arith) t) (omega arith)
          (λ x y lo xy hi t t'. sorted x y (omega arith) xy (omega arith) t t') j
          (omega (arith, order)) (omega (arith, order)) function in
      let same : j' ≡ j =
        last-eq stabs n_fun i (above r) addr j j' last function (omega (arith, order))
          (omega (arith, order)) b (omega arith)
          (λ x lo hi t. last_function x lo (omega arith) t) in
      let low : stop ≤ above res.right = elim (Bool-cases (ltb (above res.right) stop)) [
        | inr ge ↦ ground arith
        | inl lt ↦ elim stops [
          | inl all ↦ absurd (ground (arith, ap above all))
          | inr (t, v) ↦
              absurd (no_function (above res.right) (omega (arith, same)) (ground arith) t)
        ]
      ] in
      let high : above res.right ≤ stop = elim (Bool-cases (ltb stop (above res.right))) [
        | inr ge ↦ ground arith
        | inl lt ↦ elim ends [
          | inl end ↦ omega arith
          | inr (inl so) ↦ omega (arith, so_stop so)
          | inr (inr fn) ↦ absurd (clear stop (omega (arith, same, order)) (ground arith) fn)
        ]
      ] in
      (res, run, l ∙ ap pos same, omega arith)

  -- the search for the line in the function gives the last line stab at or below the address
  pub find_line :
      (r : ℤ)
      → above r ≡ stop
      → (rel k : ℕ) → rel ≤ addr
      → IsSorted stabs n_sline j stop
      → Gap stabs n_sline j stop rel
      → j ≤ k
      → k < stop
      → AtOrBelow stabs n_sline rel k
      → (res : Region) × (stab_binsearch stabs n_sline f j r rel ≡ some res)
        × Brackets stabs n_sline j r rel res
  find_line r e rel k le sorted gap lo hi b =
      stab_binsearch-Brackets stabs n_sline j r rel f (omega arith)
        (subst (λ h. Gap stabs n_sline j h rel) (sym e) gap) (omega (arith, order))
        (subst (IsSorted stabs n_sline j) (sym e) sorted) k lo (omega arith) b

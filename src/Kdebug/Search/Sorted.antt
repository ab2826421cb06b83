-- ===== src/Kdebug/Search/Sorted.antt =====
-- stab_binsearch over a table whose stabs of the type stand in the order of their values, as the
-- linker writes them.
use vukernelprogramming.Prelude.{
  ℕ, suc, ◌+◌, ◌-◌, ◌^◌, ◌≤◌, ◌<◌, ◌≡◌, true, some, leb, ltb, arith, Bool-cases, inl, inr, ap, ◌∙◌,
}
use vukernelprogramming.Prelude.Int.{ℤ, pos, above}
use vukernelprogramming.Kdebug.{Stabs}
use vukernelprogramming.Kdebug.Search.{Region, stab_binsearch}
use vukernelprogramming.Kdebug.Search.Scans.{NoStab}
use vukernelprogramming.Kdebug.Search.Rounds.{Gap}
use vukernelprogramming.Kdebug.Search.Outcome.{
  Outcome, EndsRegion, found, absent, before, stab_binsearch-Outcome,
}

-- a stab of the type at `i`, at or below the address
abbrev pub AtOrBelow : Stabs → ℕ → ℕ → ℕ → Type 0
AtOrBelow stabs type addr i = ((stabs i).n_type ≡ type) × ((stabs i).n_value ≤ addr)

abbrev pub IsSorted : Stabs → ℕ → ℕ → ℕ → Type 0
IsSorted stabs type l h =
    (i j : ℕ)
    → l ≤ i
    → i ≤ j
    → j < h
    → (stabs i).n_type ≡ type
    → (stabs j).n_type ≡ type
    → (stabs i).n_value ≤ (stabs j).n_value

-- the last stab of the type at or below the address is `i`, and `right` stands just before the next
-- stab of the type, or is the right end
abbrev pub Brackets : Stabs → ℕ → ℕ → ℤ → ℕ → Region → Type 0
Brackets stabs type left0 right0 addr res =
    (i : ℕ) × (res.left ≡ pos i)
    × (left0 ≤ i)
    × (i < above res.right)
    × AtOrBelow stabs type addr i
    × ((j : ℕ) → left0 ≤ j → j < above right0 → AtOrBelow stabs type addr j → j ≤ i)
    × NoStab stabs type (suc i) (above res.right)
    × EndsRegion stabs type left0 right0 addr res.right
    × (above res.right ≤ above right0)

module _ (stabs : Stabs) (type left0 : ℕ) (right0 : ℤ) (addr : ℕ) where
  module _ (sorted : IsSorted stabs type left0 (above right0)) where
    -- behind a stab of the type above the address there is none at or below it
    none_behind :
        (k j : ℕ)
        → left0 ≤ k
        → (stabs k).n_type ≡ type
        → addr < (stabs k).n_value
        → k ≤ j
        → j < above right0
        → AtOrBelow stabs type addr j
        → ⊥
    none_behind k j lo t v kj hi b = omega (arith, sorted k j lo kj hi t b.0)

    Outcome-Brackets :
        (res : Region) (j : ℕ)
        → left0 ≤ j
        → j < above right0
        → AtOrBelow stabs type addr j
        → Outcome stabs type left0 right0 addr res
        → Brackets stabs type left0 right0 addr res
    Outcome-Brackets res j lo hi b (found i e li ir t v n u ends) =
        (i, e, li, ir, (t, v), last, n, ends, u)
      where
        beyond : (k : ℕ) → k < above right0 → AtOrBelow stabs type addr k → above res.right ≤ k → ⊥
        beyond k kh kb past = elim ends [
          | inl same ↦ absurd (omega (arith, ap above same))
          | inr (t', v') ↦ none_behind (above res.right) k (omega arith) t' v' past kh kb
        ]

        last : (k : ℕ) → left0 ≤ k → k < above right0 → AtOrBelow stabs type addr k → k ≤ i
        last k kl kh kb = elim (Bool-cases (leb k i)) [
          | inl le ↦ ground arith
          | inr gt ↦ elim (Bool-cases (ltb k (above res.right))) [
            | inl near ↦ absurd (n k (ground arith) (ground arith) kb.0)
            | inr far ↦ absurd (beyond k kh kb (ground arith))
          ]
        ]
    Outcome-Brackets res j lo hi b (absent n e e') = absurd (n j lo hi b.0)
    Outcome-Brackets res j lo hi b (before n lr rr t v e) =
        elim (Bool-cases (ltb j (above res.right))) [
          | inl near ↦ absurd (n j lo (ground arith) b.0)
          | inr far ↦ absurd (none_behind (above res.right) j lr t v (ground arith) hi b)
        ]

  module _ (f : ℕ) (room : addr + 1 < 2 ^ 32) (gap : Gap stabs type left0 (above right0) addr)
      (fuel : above right0 - left0 + 1 < f) where
    -- Let the address be below 2^32 - 1, let no stab of the type in the region have the value
    -- `addr + 1`, and let there be fuel for one pass more than the region has stabs. If the stabs of
    -- the type in the region stand in the order of their values and one of them is at or below the
    -- address, stab_binsearch ends and returns in `left` the last such stab, and in `right` the
    -- index before the next stab of the type, or the right end if there is none.
    pub stab_binsearch-Brackets :
        IsSorted stabs type left0 (above right0)
        → (j : ℕ) → left0 ≤ j
        → j < above right0
        → AtOrBelow stabs type addr j
        → (res : Region) × (stab_binsearch stabs type f left0 right0 addr ≡ some res)
          × Brackets stabs type left0 right0 addr res
    stab_binsearch-Brackets sorted j lo hi b =
        let (res, e, o) =
          stab_binsearch-Outcome stabs type left0 right0 addr f room gap (omega arith) fuel in
        (res, e, Outcome-Brackets sorted res j lo hi b o)

    -- Let the address be below 2^32 - 1, let no stab of the type in the region have the value
    -- `addr + 1`, and let there be fuel for one pass more than the region has stabs. If the first
    -- stab of the type in the region is at `k`, behind the left end, and every one is above the
    -- address, stab_binsearch ends and returns the left end given to it and `k - 1`: a region with
    -- left ≤ right, though no stab of the type contains the address.
    pub stab_binsearch_before :
        (k : ℕ)
        → left0 < k
        → k < above right0
        → (stabs k).n_type ≡ type
        → NoStab stabs type left0 k
        → ((j : ℕ)
            → left0 ≤ j
            → j < above right0
            → (stabs j).n_type ≡ type
            → addr < (stabs j).n_value)
        → (res : Region) × (stab_binsearch stabs type f left0 right0 addr ≡ some res)
          × (res.left ≡ pos left0)
          × (above res.right ≡ k)
    stab_binsearch_before k lk kr t n all =
        let (res, e, o) =
          stab_binsearch-Outcome stabs type left0 right0 addr f room gap (omega arith) fuel in
        let (l, r) = go res o in (res, e, l, r)
      where
        go :
            (res : Region)
            → Outcome stabs type left0 right0 addr res
            → (res.left ≡ pos left0) × (above res.right ≡ k)
        go res (found i e li ir t' v m u ends) = absurd (omega (arith, all i li (omega arith) t'))
        go res (absent m e e') = absurd (m k (omega arith) kr t)
        go res (before m lr rr t' v e) =
            let at : above res.right ≡ k = elim (Bool-cases (ltb (above res.right) k)) [
              | inl lt ↦ absurd (n (above res.right) lr (ground arith) t')
              | inr ge ↦ elim (Bool-cases (ltb k (above res.right))) [
                | inl gt ↦ absurd (m k (omega arith) (ground arith) t)
                | inr le ↦ ground arith
              ]
            ] in
            let on : ltb left0 (above res.right) ≡ true = ground arith in (e ∙ rw on, at)

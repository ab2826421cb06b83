-- ===== src/Kdebug/Search/Scans.antt =====
-- What the two inner loops of stab_binsearch find.
use vukernelprogramming.Prelude.{
  ℕ, zero, suc, ◌≤◌, ◌<◌, ◌≡◌, ◌≢◌, ◌&&◌, Option, none, some, ltb, ◌==◌, arith, Bool-cases, inl,
  inr,
}
use vukernelprogramming.Kdebug.{Stabs}
use vukernelprogramming.Kdebug.Search.{scan, back}

module _ (stabs : Stabs) (type : ℕ) where
  -- no stab of the type stands in [l, h)
  abbrev pub NoStab : ℕ → ℕ → Type 0
  NoStab l h = (i : ℕ) → l ≤ i → i < h → (stabs i).n_type ≢ type

  -- what the scan from `m` down to `l` says: the last stab of the type in [l, m], or that none is
  abbrev pub Last : ℕ → ℕ → Option ℕ → Type 0
  Last l m none = NoStab l (suc m)
  Last l m (some k) = (l ≤ k) × (k ≤ m) × ((stabs k).n_type ≡ type) × NoStab (suc k) (suc m)

  pub NoStab-snoc : (l m : ℕ) → NoStab l m → (stabs m).n_type ≢ type → NoStab l (suc m)
  NoStab-snoc l m h n i lo hi = elim (Bool-cases (i == m)) [
    | inl e ↦ ground arith
    | inr o ↦ h i lo (ground arith)
  ]

  pub NoStab-join : (l m h : ℕ) → NoStab l m → NoStab m h → NoStab l h
  NoStab-join l m h p q i lo hi = elim (Bool-cases (ltb i m)) [
    | inl below ↦ p i lo (ground arith)
    | inr from ↦ q i (ground arith) hi
  ]

  Last-snoc :
      (l m : ℕ) (o : Option ℕ) → Last l m o → (stabs (suc m)).n_type ≢ type → Last l (suc m) o
  Last-snoc l m none h n = NoStab-snoc l (suc m) h n
  Last-snoc l m (some k) h n = (h.0, omega arith, h.2, NoStab-snoc (suc k) (suc m) h.3 n)

  pub scan-Last : (l m : ℕ) → Last l m (scan stabs type l m)
  unfolding scan
  scan-Last l zero = elim (Bool-cases ((l == 0) && ((stabs 0).n_type == type))) [
    | inl hit ↦ rw hit (ground arith, omega arith, ground arith, λ i lo hi. absurd (omega arith))
    | inr miss ↦ rw miss (λ i lo hi. let e : i ≡ 0 = omega arith in rw e (ground arith))
  ]
  scan-Last l (suc m) = elim (Bool-cases (ltb (suc m) l)) [
    | inl below ↦ rw below (λ i lo hi. absurd (ground arith))
    | inr inside ↦ elim (Bool-cases ((stabs (suc m)).n_type == type)) [
      | inl hit ↦
          rw (inside, hit)
            (ground arith, omega arith, ground arith, λ i lo hi. absurd (omega arith))
      | inr miss ↦ rw (inside, miss) (Last-snoc l m _ (scan-Last l m) (ground arith))
    ]
  ]

  -- with no stab of the type above `left` the walk back ends there
  pub back-eq : (left l : ℕ) → left ≤ l → NoStab (suc left) (suc l) → back stabs type left l ≡ left
  unfolding back
  back-eq left zero h n = omega arith
  back-eq left (suc l) h n = elim (Bool-cases (ltb left (suc l))) [
    | inl more ↦
        let other = n (suc l) (ground arith) (omega arith) in
        ground (arith, back-eq left l (ground arith) (λ i lo hi. n i lo (omega arith)))
    | inr end ↦ rw end (ground arith)
  ]

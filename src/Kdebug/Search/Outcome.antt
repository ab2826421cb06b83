-- ===== src/Kdebug/Search/Outcome.antt =====
-- What stab_binsearch returns.
use vukernelprogramming.Prelude.{
  ℕ, zero, suc, ◌+◌, ◌-◌, ◌^◌, ◌≤◌, ◌<◌, ◌≡◌, refl, true, false, some, ltb, if◌then◌else◌, arith,
  Bool-cases, inl, inr, ◌⊎◌, ap, subst, sym,
}
use vukernelprogramming.Prelude.Int.{ℤ, pos, negsuc, pred_ℕ, above}
use vukernelprogramming.Kdebug.{Stabs}
use vukernelprogramming.Kdebug.Search.{
  Search, Region, start, finish, stab_binsearch, back, back_int,
}
use vukernelprogramming.Kdebug.Search.Scans.{NoStab, back-eq}
use vukernelprogramming.Kdebug.Search.Invariant.{Low, Hit, Inv, measure}
use vukernelprogramming.Kdebug.Search.Rounds.{Gap, loop-Ends}

module _ (stabs : Stabs) (type : ℕ) where
  back-low : (left l : ℕ) → l ≤ left → back stabs type left l ≡ l
  unfolding back
  back-low left zero h = refl
  back-low left (suc l) h = let e : ltb left (suc l) ≡ false = ground arith in rw e refl

  back_int-low : (left : ℕ) (r : ℤ) → above r ≤ left → back_int stabs type left r ≡ r
  unfolding back_int
  back_int-low left (pos l) h = ap pos (back-low left l (omega arith))
  back_int-low left (negsuc n) h = refl

  back_int-eq :
      (left : ℕ) (r : ℤ)
      → left < above r
      → NoStab stabs type (suc left) (above r)
      → back_int stabs type left r ≡ pos left
  unfolding back_int
  back_int-eq left (pos l) h n = ap pos (back-eq stabs type left l (omega arith) n)
  back_int-eq left (negsuc k) h n = absurd (omega arith)

  matched : Search → Region
  matched s = record {
    left = back_int stabs type s.region_left s.region_right;
    right = s.region_right;
  }

  unmatched : Search → Region
  unmatched s = record { left = pos s.region_left; right = pred_ℕ s.region_left }

  finish-matched : (s : Search) → s.any_matches ≡ true → finish stabs type s ≡ matched s
  unfolding finish matched
  finish-matched s e = simp (e, finish)

  finish-unmatched : (s : Search) → s.any_matches ≡ false → finish stabs type s ≡ unmatched s
  unfolding finish unmatched
  finish-unmatched s e = simp (e, finish)

module _ (stabs : Stabs) (type left0 : ℕ) (right0 : ℤ) (addr0 : ℕ) where
  -- the right end is the one given, or the next stab of the type follows it and is above the address
  abbrev pub EndsRegion : ℤ → Type 0
  EndsRegion r =
      (r ≡ right0) ⊎ (((stabs (above r)).n_type ≡ type) × (addr0 < (stabs (above r)).n_value))

  -- what a search of [left0, right0] can return
  pub data Outcome (res : Region) : Type 0 where
    -- a stab of the type at or below the address, and none of the type behind it in the region
    found :
        (i : ℕ)
        → res.left ≡ pos i
        → left0 ≤ i
        → i < above res.right
        → (stabs i).n_type ≡ type
        → (stabs i).n_value ≤ addr0
        → NoStab stabs type (suc i) (above res.right)
        → above res.right ≤ above right0
        → EndsRegion res.right
        → Outcome res
    -- no stab of the type stands in the region searched
    absent :
        NoStab stabs type left0 (above right0)
        → res.left ≡ pos left0
        → res.right ≡ pred_ℕ left0
        → Outcome res
    -- the first stab of the type in the region is above the address
    before :
        NoStab stabs type left0 (above res.right)
        → left0 ≤ above res.right
        → above res.right < above right0
        → (stabs (above res.right)).n_type ≡ type
        → addr0 < (stabs (above res.right)).n_value
        → res.left ≡ (if ltb left0 (above res.right) then pos left0 else res.right)
        → Outcome res

  module _ (s : Search) (e : s.l ≡ above s.r) where
    before-left :
        (left : ℕ)
        → s.region_right ≡ s.r
        → s.region_left ≡ left
        → left ≤ above s.r
        → NoStab stabs type left (above s.r)
        → back_int stabs type s.region_left s.region_right
          ≡ (if ltb left (above s.region_right) then pos left else s.region_right)
    before-left left same at o n = elim (Bool-cases (ltb left (above s.region_right))) [
      | inl lt ↦ rw lt (
          subst (λ k. back_int stabs type k s.region_right ≡ pos left) (sym at)
            (back_int-eq stabs type left s.region_right (ground arith)
              (λ i lo hi. n i (omega arith) (omega (arith, ap above same)))))
      | inr ge ↦
          rw ge
            (back_int-low stabs type s.region_left s.region_right (ground (arith, ap above same)))
    ]

    finish-Low : Low stabs type left0 right0 addr0 s → Outcome (finish stabs type s)
    unfolding matched unmatched
    finish-Low h = elim (Bool-cases s.any_matches) [
      | inl m ↦ subst Outcome (sym (finish-matched stabs type s m)) (
          let (t, v, room) = h.matched m in
          let at : above s.region_right ≡ above s.r = ap above h.common.same in
          before (λ i lo hi. h.clear i lo (omega arith))
            (omega (arith, h.common.ordered, h.common.lower)) (omega arith) (rw at t) (rw at v)
            (before-left left0 h.common.same h.start
              (omega (arith, h.common.ordered, h.common.lower))
              (λ i lo hi. h.clear i lo (omega arith))))
      | inr u ↦ subst Outcome (sym (finish-unmatched stabs type s u)) (
          let end : above s.r ≡ above right0 = ap above (h.unmatched u) in
          absent (λ i lo hi. h.clear i lo (omega arith)) (ap pos h.start) (ap pred_ℕ h.start))
    ]

    finish-Hit : Hit stabs type left0 right0 addr0 s → Outcome (finish stabs type s)
    unfolding matched unmatched
    finish-Hit h = subst Outcome (sym (finish-matched stabs type s h.matched)) (
        let at : above s.region_right ≡ above s.r = ap above h.common.same in
        found s.region_left
          (back_int-eq stabs type s.region_left s.region_right (omega (arith, h.within_right))
            (λ i lo hi. h.clear i lo (omega arith)))
          h.inside (omega (arith, h.within_right)) h.typed h.value
          (λ i lo hi. h.clear i lo (omega arith)) (omega (arith, h.common.upper))
          (subst EndsRegion (sym h.common.same) h.common.bounded))

    finish-Outcome : Inv stabs type left0 right0 addr0 s → Outcome (finish stabs type s)
    finish-Outcome (inl h) = finish-Low h
    finish-Outcome (inr h) = finish-Hit h

  -- Where the address is below 2^32 - 1, no stab of the type in the region has the value `addr + 1`,
  -- and the region does not start behind its end, stab_binsearch over it ends, in at most one pass
  -- more than it has stabs; the stabs need not be in order. What it returns is one of the outcomes:
  -- the last stab of the type that is at or below the address before the next one that is above it,
  -- or the statement that no stab of the type is in the region, or that the first one is above the
  -- address.
  pub stab_binsearch-Outcome :
      (f : ℕ)
      → addr0 + 1 < 2 ^ 32
      → Gap stabs type left0 (above right0) addr0
      → left0 ≤ above right0
      → above right0 - left0 + 1 < f
      → (res : Region) × (stab_binsearch stabs type f left0 right0 addr0 ≡ some res) × Outcome res
  unfolding stab_binsearch start measure
  stab_binsearch-Outcome f room gap o fuel =
      let low : Low stabs type left0 right0 addr0 (start stabs type left0 right0 addr0) = record {
        common = record {
          same = refl;
          lower = omega arith;
          ordered = o;
          upper = omega arith;
          bounded = inl refl;
        };
        start = refl;
        address = refl;
        clear = λ i lo hi. absurd (omega arith);
        unmatched = λ e. refl;
        matched = λ e. absurd (ground arith);
      } in
      let (s, e, h, end) =
        loop-Ends stabs type left0 right0 addr0 room gap f (start stabs type left0 right0 addr0)
          (inl low) (ground arith) in
      (finish stabs type s, rw (e, stab_binsearch), finish-Outcome s end h)

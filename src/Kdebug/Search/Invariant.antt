-- ===== src/Kdebug/Search/Invariant.antt =====
-- The invariant of the loop of stab_binsearch, and that one pass keeps it and comes nearer the end.
use vukernelprogramming.Prelude.{
  ℕ, zero, suc, ◌+◌, ◌-◌, ◌/◌, ◌%◌, ◌^◌, ◌≤◌, ◌<◌, ◌≡◌, refl, true, false, ◌==◌, if◌then◌else◌,
  arith, inr, ◌⊎◌, ap,
}
use vukernelprogramming.Prelude.Int.{ℤ, pos, pred_ℕ, above}
use vukernelprogramming.Kdebug.{Stabs}
use vukernelprogramming.Kdebug.Search.{Search, go_left, go_right, go_exact}
use vukernelprogramming.Kdebug.Search.Scans.{NoStab}

module _ (stabs : Stabs) (type left0 : ℕ) (right0 : ℤ) (addr0 : ℕ) where
  -- the right end is that of the call, or a stab of the type above the address follows it
  abbrev pub Bounded : ℤ → Type 0
  Bounded r =
      (r ≡ right0) ⊎ (((stabs (above r)).n_type ≡ type) × (addr0 < (stabs (above r)).n_value))

  pub record Common (s : Search) : Type 0 where
    pub same : s.region_right ≡ s.r
    pub lower : left0 ≤ s.l
    pub ordered : s.l ≤ above s.r
    pub upper : above s.r ≤ above right0
    pub bounded : Bounded s.r

  -- no stab at or below the address has been met
  pub record Low (s : Search) : Type 0 where
    pub common : Common s
    pub start : s.region_left ≡ left0
    pub address : s.addr ≡ addr0
    pub clear : NoStab stabs type left0 s.l
    pub unmatched : s.any_matches ≡ false → s.r ≡ right0
    pub matched :
        s.any_matches ≡ true
        → ((stabs (above s.r)).n_type ≡ type)
          × (addr0 < (stabs (above s.r)).n_value)
          × (above s.r < above right0)

  -- region_left is the last stab of the type below l, and at or below the address
  pub record Hit (s : Search) : Type 0 where
    pub common : Common s
    pub matched : s.any_matches ≡ true
    pub inside : left0 ≤ s.region_left
    pub before : s.region_left ≤ s.l
    pub within_right : s.region_left < above s.r
    pub typed : (stabs s.region_left).n_type ≡ type
    pub value : (stabs s.region_left).n_value ≤ addr0
    pub address : (s.addr ≡ addr0) ⊎ (s.addr ≡ addr0 + 1)
    pub clear : NoStab stabs type (suc s.region_left) s.l

  abbrev pub Inv : Search → Type 0
  Inv s = Low s ⊎ Hit s

  -- at most so many passes are left
  unfoldable pub measure : Search → ℕ
  measure s = above s.r - s.l + (if s.addr == addr0 then 1 else 0)

  -- a stab of the type in [l, mid], and none behind it up to mid
  pub record Probed (s : Search) (r mid m : ℕ) : Type 0 where
    pub at : s.r ≡ pos r
    pub more : s.l ≤ r
    pub middle : mid ≡ (s.l + r) / 2
    pub low : s.l ≤ m
    pub high : m ≤ mid
    pub typed : (stabs m).n_type ≡ type
    pub last : NoStab stabs type (suc m) (suc mid)

  pub above-pred : (m : ℕ) → above (pred_ℕ m) ≡ m
  above-pred zero = refl
  above-pred (suc m) = refl

  module _ {s : Search} {r mid m : ℕ} (p : Probed s r mid m) where
    open p use {at, more, middle, low, high, typed, last}

    pub end : above s.r ≡ suc r
    end = ap above at

    pub go_right-Hit :
        Common s
        → (stabs m).n_value ≤ addr0
        → (s.addr ≡ addr0) ⊎ (s.addr ≡ addr0 + 1)
        → Hit (go_right s mid m)
    go_right-Hit c v a = record {
      common = record {
        same = c.same;
        lower = omega (arith, c.lower);
        ordered = omega (arith, end);
        upper = c.upper;
        bounded = c.bounded;
      };
      matched = refl;
      inside = omega (arith, c.lower);
      before = omega arith;
      within_right = omega (arith, end);
      typed = typed;
      value = v;
      address = a;
      clear = λ i lo hi. last i lo (omega arith);
    }

    pub go_exact-Hit :
        Common s
        → (stabs m).n_value ≡ addr0
        → s.addr ≡ addr0
        → addr0 + 1 < 2 ^ 32
        → Hit (go_exact s m)
    go_exact-Hit c v a room = record {
      common = record {
        same = c.same;
        lower = omega (arith, c.lower);
        ordered = omega (arith, end);
        upper = c.upper;
        bounded = c.bounded;
      };
      matched = refl;
      inside = omega (arith, c.lower);
      before = omega arith;
      within_right = omega (arith, end);
      typed = typed;
      value = omega arith;
      address = inr (omega arith);
      clear = λ i lo hi. absurd (omega arith);
    }

    go_left-Common : Common s → addr0 < (stabs m).n_value → Common (go_left s m)
    go_left-Common c v = record {
      same = refl;
      lower = c.lower;
      ordered = rw (above-pred m) low;
      upper = rw (above-pred m) (omega (arith, end, c.upper));
      bounded = rw (above-pred m) (inr (typed, v));
    }

    pub go_left-Low : Low s → addr0 < (stabs m).n_value → Low (go_left s m)
    go_left-Low h v = record {
      common = go_left-Common h.common v;
      start = h.start;
      address = h.address;
      clear = h.clear;
      unmatched = λ e. cc;
      matched = λ e. rw (above-pred m) (typed, v, omega (arith, end, h.common.upper));
    }

    pub go_left-Hit : Hit s → addr0 < (stabs m).n_value → Hit (go_left s m)
    go_left-Hit h v = record {
      common = go_left-Common h.common v;
      matched = refl;
      inside = h.inside;
      before = h.before;
      within_right = rw (above-pred m) (ground arith);
      typed = h.typed;
      value = h.value;
      address = h.address;
      clear = h.clear;
    }

    -- each case comes nearer the end
    pub go_right-lt : measure (go_right s mid m) < measure s
    unfolding measure
    go_right-lt = ground (arith, end)

    pub go_left-lt : measure (go_left s m) < measure s
    unfolding measure
    go_left-lt = ground (arith, end, above-pred m)

    pub go_exact-lt : s.addr ≡ addr0 → addr0 + 1 < 2 ^ 32 → measure (go_exact s m) < measure s
    unfolding measure
    go_exact-lt a room =
        let off : ((s.addr + 1) % 2 ^ 32 == addr0) ≡ false = ground arith in
        let on : (s.addr == addr0) ≡ true = ground arith in rw (off, on) (omega (arith, end))

-- ===== src/Kdebug/Search/Rounds.antt =====
-- One pass of the loop of stab_binsearch keeps the invariant, and the loop ends.
use vukernelprogramming.Prelude.{
  ℕ, zero, suc, ◌+◌, ◌/◌, ◌^◌, ◌≤◌, ◌<◌, ◌≡◌, ◌≢◌, refl, Option, none, some, leb, ltb, arith,
  Bool-cases, inl, inr, ◌⊎◌, ap,
}
use vukernelprogramming.Prelude.Int.{ℤ, pos, negsuc, above}
use vukernelprogramming.Kdebug.{Stabs}
use vukernelprogramming.Kdebug.Search.{Search, scan, probe, round, loop, go_left}
use vukernelprogramming.Kdebug.Search.Scans.{NoStab, Last, scan-Last, NoStab-join}
use vukernelprogramming.Kdebug.Search.Invariant.{
  Common, Inv, Probed, measure, go_right-Hit, go_exact-Hit, go_left-Low, go_left-Hit, go_right-lt,
  go_left-lt, go_exact-lt, end,
}

-- no stab of the type has the value just behind the address
abbrev pub Gap : Stabs → ℕ → ℕ → ℕ → ℕ → Type 0
Gap stabs type l h addr =
    (i : ℕ) → l ≤ i → i < h → (stabs i).n_type ≡ type → (stabs i).n_value ≢ addr + 1

module _ (stabs : Stabs) (type left0 : ℕ) (right0 : ℤ) (addr0 : ℕ) where
  abbrev IsInv : Search → Type 0
  IsInv = Inv stabs type left0 right0 addr0

  abbrev left_of : Search → ℕ
  left_of = measure stabs type left0 right0 addr0

  -- a state that keeps the invariant and is nearer the end
  abbrev Better : Search → Search → Type 0
  Better s s' = IsInv s' × (left_of s' < left_of s)

  Inv-Common : {s : Search} → IsInv s → Common stabs type left0 right0 addr0 s
  Inv-Common (inl h) = h.common
  Inv-Common (inr h) = h.common

  Inv-address : {s : Search} → IsInv s → (s.addr ≡ addr0) ⊎ (s.addr ≡ addr0 + 1)
  Inv-address (inl h) = inl h.address
  Inv-address (inr h) = h.address

  module _ {s : Search} {r mid m : ℕ} (p : Probed stabs type left0 right0 addr0 s r mid m) where
    Inv-go_left : IsInv s → addr0 < (stabs m).n_value → IsInv (go_left s m)
    Inv-go_left (inl h) v = inl (go_left-Low stabs type left0 right0 addr0 p h v)
    Inv-go_left (inr h) v = inr (go_left-Hit stabs type left0 right0 addr0 p h v)

  module _ (room : addr0 + 1 < 2 ^ 32) (gap : Gap stabs type left0 (above right0) addr0) where
    module _ {s : Search} {r mid m : ℕ} (p : Probed stabs type left0 right0 addr0 s r mid m)
        (h : IsInv s) where
      c : Common stabs type left0 right0 addr0 s
      c = Inv-Common h

      not_next : (stabs m).n_value ≢ addr0 + 1
      not_next =
          gap m (omega (arith, c.lower, p.low))
            (omega (arith, c.upper, end stabs type left0 right0 addr0 p, p.high, p.middle, p.more))
            p.typed

      probe-Better : Better s (probe stabs type s mid m)
      unfolding probe
      probe-Better = elim (Bool-cases (ltb (stabs m).n_value s.addr)) [
        | inl lt ↦ rw lt (
          inr (
              go_right-Hit stabs type left0 right0 addr0 p c
                (ground (arith, Inv-address h, not_next)) (Inv-address h)),
          go_right-lt stabs type left0 right0 addr0 p,
        )
        | inr ge ↦ elim (Bool-cases (ltb s.addr (stabs m).n_value)) [
          | inl gt ↦
              rw (ge, gt)
                (
                  Inv-go_left p h (ground (arith, Inv-address h)),
                  go_left-lt stabs type left0 right0 addr0 p,
                )
          | inr eq ↦
              let a : s.addr ≡ addr0 = ground (arith, Inv-address h, not_next) in
              rw (ge, eq)
                (
                  inr (go_exact-Hit stabs type left0 right0 addr0 p c (ground arith) a room),
                  go_exact-lt stabs type left0 right0 addr0 p a room,
                )
        ]
      ]

    -- a pass that finds no stab of the type in [l, mid] only moves l
    go_on : Search → ℕ → Search
    go_on s mid = record s { l = mid + 1 }

    go_on-Common :
        {s : Search} {r : ℕ} (mid : ℕ)
        → s.r ≡ pos r
        → s.l ≤ r
        → mid ≡ (s.l + r) / 2
        → Common stabs type left0 right0 addr0 s
        → Common stabs type left0 right0 addr0 (go_on s mid)
    unfolding go_on
    go_on-Common mid e k em c = record {
      same = c.same;
      lower = omega (arith, c.lower);
      ordered = omega (arith, ap above e);
      upper = c.upper;
      bounded = c.bounded;
    }

    go_on-Inv :
        {s : Search} {r : ℕ} (mid : ℕ)
        → s.r ≡ pos r
        → s.l ≤ r
        → mid ≡ (s.l + r) / 2
        → NoStab stabs type s.l (suc mid)
        → IsInv s
        → IsInv (go_on s mid)
    unfolding go_on
    go_on-Inv mid e k em n (inl h) = inl (record {
      common = go_on-Common mid e k em h.common;
      start = h.start;
      address = h.address;
      clear = λ i lo hi. NoStab-join stabs type _ _ _ h.clear n i lo (omega arith);
      unmatched = h.unmatched;
      matched = h.matched;
    })
    go_on-Inv mid e k em n (inr h) = inr (record {
      common = go_on-Common mid e k em h.common;
      matched = h.matched;
      inside = h.inside;
      before = omega (arith, h.before);
      within_right = h.within_right;
      typed = h.typed;
      value = h.value;
      address = h.address;
      clear = λ i lo hi. NoStab-join stabs type _ _ _ h.clear n i lo (omega arith);
    })

    round-Better :
        (s : Search) (r : ℕ) → s.r ≡ pos r → s.l ≤ r → IsInv s → Better s (round stabs type s r)
    unfolding round go_on measure
    round-Better s r e k h =
        go (scan stabs type s.l ((s.l + r) / 2)) refl (scan-Last stabs type s.l ((s.l + r) / 2))
      where
        go :
            (o : Option ℕ)
            → scan stabs type s.l ((s.l + r) / 2) ≡ o
            → Last stabs type s.l ((s.l + r) / 2) o
            → Better s (round stabs type s r)
        go none eq n =
            rw (eq, round) (go_on-Inv ((s.l + r) / 2) e k refl n h, ground (arith, ap above e))
        go (some m) eq (lo, hi, t, n) =
            rw (eq, round)
              (probe-Better
                (record {
                  at = e;
                  more = k;
                  middle = refl;
                  low = lo;
                  high = hi;
                  typed = t;
                  last = n;
                })
                h)

    -- the loop ends with the invariant, and no index left to search
    abbrev Ends : Option Search → Type 0
    Ends o = (s' : Search) × (o ≡ some s') × IsInv s' × (s'.l ≡ above s'.r)

    loop-step :
        (f : ℕ) (s : Search) (r : ℤ)
        → s.r ≡ r
        → IsInv s
        → ((k : ℕ) → s.r ≡ pos k → s.l ≤ k → Ends (loop stabs type f (round stabs type s k)))
        → Ends (loop stabs type (suc f) s)
    unfolding loop
    loop-step f s (negsuc n) e h again =
        (s, simp (e, loop), h, omega (arith, (Inv-Common h).ordered, ap above e))
    loop-step f s (pos r) e h again = elim (Bool-cases (leb s.l r)) [
      | inl more ↦
          let (s', eq, h', end) = again r e (ground arith) in
          (s', rw (e, loop) (rw more eq), h', end)
      | inr done ↦ (s, simp (e, loop, done), h, ground (arith, (Inv-Common h).ordered, ap above e))
    ]

    -- With more fuel than the measure the loop ends, at a state that keeps the invariant.
    pub loop-Ends : (f : ℕ) (s : Search) → IsInv s → left_of s < f → Ends (loop stabs type f s)
    loop-Ends zero s h fuel = absurd (omega arith)
    loop-Ends (suc f) s h fuel = loop-step f s s.r refl h (λ r e k.
        loop-Ends f (round stabs type s r) (round-Better s r e k h).0
          (omega (arith, (round-Better s r e k h).1)))

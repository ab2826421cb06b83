-- ===== src/Str/Block/Move.antt =====
-- memmove copies the block as it was, also where source and destination overlap.
use vukernelprogramming.Prelude.{
  ℕ, zero, suc, ◌+◌, ◌-◌, ◌*◌, ◌/◌, ◌%◌, ◌≤◌, ◌<◌, ◌≡◌, ◌⊎◌, inl, inr, ◌&&◌, arith, ltb,
  if◌then◌else◌, Bool-cases, ◌∙◌, sym, subst,
}
use vukernelprogramming.Memory.{Mem, within}
use vukernelprogramming.Str.Block.{movs, rep_movs_up, rep_movs_down, memmove, aligned}

rep_movs_up-copy :
    (k n : ℕ) (m : Mem) (d s a : ℕ)
    → (d ≤ s) ⊎ (s + n * k ≤ d)
    → rep_movs_up k n m d s a ≡ (if within d (n * k) a then m (s + (a - d)) else m a)
unfolding rep_movs_up movs
rep_movs_up-copy k zero m d s a h = ground arith
rep_movs_up-copy k (suc n) m d s a h =
    ground (arith, rep_movs_up-copy k n (movs k m d s) (d + k) (s + k) a)

-- The last unit of a block, then the `p` bytes below it.
movs-below :
    (k p : ℕ) (m : Mem) (d s a : ℕ)
    → s ≤ d
    → (if within d p a then movs k m (d + p) (s + p) (s + (a - d)) else movs k m (d + p) (s + p) a)
      ≡ (if within d (p + k) a then m (s + (a - d)) else m a)
unfolding movs
movs-below k p m d s a h = ground arith

rep_movs_down-copy :
    (k n : ℕ) (m : Mem) (d s x y a : ℕ)
    → s ≤ d
    → x ≡ d + n * k
    → y ≡ s + n * k
    → rep_movs_down k (suc n) m x y a ≡ (if within d (n * k + k) a then m (s + (a - d)) else m a)
unfolding rep_movs_down
rep_movs_down-copy k zero m d s x y a h ex ey =
    rw (ex, ey) (ground (arith, movs-below k 0 m d s a h))
rep_movs_down-copy k (suc n) m d s x y a h ex ey =
    let ih =
      rep_movs_down-copy k n (movs k m x y) d s (x - k) (y - k) a h (omega arith) (omega arith) in
    let e : n * k + k ≡ suc n * k = omega arith in
    ih ∙ (rw (e, ex, ey) (movs-below k (suc n * k) m d s a h))

units : (n : ℕ) → n % 4 ≡ 0 → 0 < n → (n / 4 ≡ suc (n / 4 - 1)) × ((n / 4 - 1) * 4 + 4 ≡ n)
units n h p = omega arith

down :
    (k n : ℕ) (m : Mem) (d s c a : ℕ)
    → s ≤ d
    → n ≡ c * k + k
    → rep_movs_down k (suc c) m (d + n - k) (s + n - k) a
      ≡ (if within d n a then m (s + (a - d)) else m a)
down k n m d s c a h e = rw e (rep_movs_down-copy k c m d s _ _ a h (omega arith) (omega arith))

-- After memmove each address of [dst, dst + n) holds what the address as far into [src, src + n)
-- held before, whether or not the blocks overlap, and all other addresses are unchanged.
pub memmove-copy :
    (m : Mem) (dst src n a : ℕ)
    → memmove m dst src n a ≡ (if within dst n a then m (src + (a - dst)) else m a)
unfolding memmove
memmove-copy m dst src n a = elim (Bool-cases (ltb src dst && ltb dst (src + n))) [
  | inl over ↦
      let lo : src ≤ dst = ground arith in
      let pos : 0 < n = ground arith in
      elim (Bool-cases (aligned (src + n) (dst + n) n)) [
        | inl four ↦
            let (e, e') = units n (ground arith) pos in
            rw (over, four, e) (down 4 n m dst src (n / 4 - 1) a lo (sym e'))
        | inr one ↦
            let e : n ≡ suc (n - 1) = omega arith in
            rw (over, one)
              (subst
                (λ j.
                  rep_movs_down 1 j m (dst + n - 1) (src + n - 1) a
                  ≡ (if within dst n a then m (src + (a - dst)) else m a))
                (sym e) (down 1 n m dst src (n - 1) a lo (omega arith)))
      ]
  | inr apart ↦
      let ok : (dst ≤ src) ⊎ (src + n ≤ dst) = ground arith in
      elim (Bool-cases (aligned src dst n)) [
        | inl four ↦
            let e : n / 4 * 4 ≡ n = ground arith in
            rw (apart, four) (rw e at (rep_movs_up-copy 4 (n / 4) m dst src a (rw e ok)))
        | inr one ↦
            let e : n * 1 ≡ n = omega arith in
            rw (apart, one) (rw e at (rep_movs_up-copy 1 n m dst src a (rw e ok)))
      ]
]

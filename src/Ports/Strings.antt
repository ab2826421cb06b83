-- ===== src/Ports/Strings.antt =====
-- insb, insw and insl of inc/x86.h: `cld; repne ins` reads from a port to memory, upwards. The read of
-- one unit, by `in`, is an argument, and the ZF that `repne` looks at is left alone by `ins`.
use vukernelprogramming.Prelude.{
  Bool-cases, inl, inr, true, false, ◌==◌, ℕ, zero, suc, ◌+◌, ◌-◌, ◌*◌, ◌/◌, ◌%◌, ◌^◌, ◌<◌, ◌≡◌,
  refl, arith, if◌then◌else◌, ◌∙◌, ap,
}
use vukernelprogramming.Memory.{Mem, write, within}

-- the `k` bytes of a unit, the least significant first
unfoldable pub store_unit : ℕ → Mem → ℕ → ℕ → Mem
unfolding write
store_unit zero m addr v = m
store_unit (suc k) m addr v = store_unit k (write m addr (v % 2 ^ 8)) (addr + 1) (v / 2 ^ 8)

module _ {D : Type 0} (inp : ℕ → D → ℕ × D) where
  -- `cnt` units of `k` bytes
  unfoldable pub rep_ins : ℕ → ℕ → ℕ → ℕ → Mem × D → Mem × D
  unfolding store_unit
  rep_ins k port addr zero (m, d) = (m, d)
  rep_ins k port addr (suc cnt) (m, d) =
      rep_ins k port (addr + k) cnt (store_unit k m addr (inp port d).0, (inp port d).1)

  unfoldable pub insb : ℕ → ℕ → ℕ → Mem × D → Mem × D
  unfolding rep_ins
  insb port addr cnt x = rep_ins 1 port addr cnt x

  unfoldable pub insw : ℕ → ℕ → ℕ → Mem × D → Mem × D
  unfolding rep_ins
  insw port addr cnt x = rep_ins 2 port addr cnt x

  unfoldable pub insl : ℕ → ℕ → ℕ → Mem × D → Mem × D
  unfolding rep_ins
  insl port addr cnt x = rep_ins 4 port addr cnt x

-- the number whose bytes are `b` at 0, 1, ...
abbrev pub unit_of : ℕ → (ℕ → ℕ) → ℕ → ℕ
unit_of zero b p = 0
unit_of (suc k) b p = b p + 2 ^ 8 * unit_of k b (p + 1)

-- a byte, then the `k` bytes behind it
first_byte :
    (k : ℕ) (b : ℕ → ℕ) (p : ℕ) (m : Mem) (addr a : ℕ)
    → (if within (addr + 1) k a then b (p + 1 + (a - (addr + 1))) else write m addr (b p) a)
      ≡ (if within addr (suc k) a then b (p + (a - addr)) else m a)
unfolding write
first_byte k b p m addr a = elim (Bool-cases (within (addr + 1) k a)) [
  | inl behind ↦
      let e : p + 1 + (a - (addr + 1)) ≡ p + (a - addr) = ground arith in
      let i : within addr (suc k) a ≡ true = ground arith in rw (behind, i, e) refl
  | inr before ↦ elim (Bool-cases (a == addr)) [
    | inl here ↦
        let e : p + (a - addr) ≡ p = ground arith in
        let i : within addr (suc k) a ≡ true = ground arith in rw (before, here, i, e) refl
    | inr off ↦ let i : within addr (suc k) a ≡ false = ground arith in rw (before, off, i) refl
  ]
]

store_unit-bytes :
    (k : ℕ) (b : ℕ → ℕ) (p : ℕ) (m : Mem) (addr a : ℕ)
    → ((i : ℕ) → b i < 2 ^ 8)
    → store_unit k m addr (unit_of k b p) a ≡ (if within addr k a then b (p + (a - addr)) else m a)
unfolding store_unit
store_unit-bytes zero b p m addr a small = ground arith
store_unit-bytes (suc k) b p m addr a small =
    let low : (b p + 2 ^ 8 * unit_of k b (p + 1)) % 2 ^ 8 ≡ b p = omega (arith, small p) in
    let high : (b p + 2 ^ 8 * unit_of k b (p + 1)) / 2 ^ 8 ≡ unit_of k b (p + 1) =
      omega (arith, small p) in
    rw (low, high)
      (store_unit-bytes k b (p + 1) (write m addr (b p)) (addr + 1) a small
        ∙ first_byte k b p m addr a)

-- a source of words: a read gives the four bytes from where it stands, and goes on behind them
pub record Stream {D : Type 0} (inp : ℕ → D → ℕ × D) (port : ℕ) (b : ℕ → ℕ) (place : D → ℕ)
    : Type 0 where
  pub small : (i : ℕ) → b i < 2 ^ 8
  pub word : (d : D) → (inp port d).0 ≡ unit_of 4 b (place d)
  pub next : (d : D) → place (inp port d).1 ≡ place d + 4

module _ {D : Type 0} (inp : ℕ → D → ℕ × D) (port : ℕ) (b : ℕ → ℕ) (place : D → ℕ)
    (s : Stream inp port b place) where
  rep_ins-block :
      (n : ℕ) (addr : ℕ) (m : Mem) (d : D) (a : ℕ)
      → (rep_ins inp 4 port addr n (m, d)).0 a
        ≡ (if within addr (4 * n) a then b (place d + (a - addr)) else m a)
  unfolding rep_ins
  rep_ins-block zero addr m d a = ground arith
  rep_ins-block (suc n) addr m d a =
      let ih = rep_ins-block n (addr + 4) (store_unit 4 m addr (inp port d).0) (inp port d).1 a in
      let stored : store_unit 4 m addr (inp port d).0 a
          ≡ (if within addr 4 a then b (place d + (a - addr)) else m a) =
        ap (λ v. store_unit 4 m addr v a) (s.word d)
        ∙ store_unit-bytes 4 b (place d) m addr a s.small in
      elim (Bool-cases (within (addr + 4) (4 * n) a)) [
        | inl behind ↦
            let e : place (inp port d).1 + (a - (addr + 4)) ≡ place d + (a - addr) =
              ground (arith, s.next d) in
            let i : within addr (4 * suc n) a ≡ true = ground arith in ih ∙ rw (behind, i, e) refl
        | inr before ↦
            let i : within addr (4 * suc n) a ≡ within addr 4 a = ground arith in
            ih ∙ rw (before, i) stored
      ]

  -- insl from a stream of words fills the memory with the bytes from where the stream stands.
  pub insl-block :
      (addr cnt : ℕ) (m : Mem) (d : D) (a : ℕ)
      → (insl inp port addr cnt (m, d)).0 a
        ≡ (if within addr (4 * cnt) a then b (place d + (a - addr)) else m a)
  unfolding insl
  insl-block addr cnt m d a = rep_ins-block cnt addr m d a

-- ===== src/Monitor/Scan.antt =====
-- The two loops in the parser of runcmd on a line: over blanks, and over a word.
use vukernelprogramming.Prelude.{
  ℕ, zero, suc, ◌+◌, ◌≤◌, ◌<◌, ◌≡◌, ◌≢◌, refl, true, false, ◌&&◌, some, List, [], ◌∷◌, arith, leb,
  ltb, ◌==◌, if◌then◌else◌, length, Bool-cases, inl, inr, ◌∙◌,
}
use vukernelprogramming.Memory.{Mem, CString, write}
use vukernelprogramming.Memory.Strings.{CString-same}
use vukernelprogramming.Monitor.{is_blank, gobble, scan_arg}
use vukernelprogramming.Monitor.Words.{starts}

-- the second memory has 0 for each blank from `p` on, up to the byte at `e`
abbrev pub Changed : Mem → Mem → ℕ → ℕ → Type 0
Changed m m' p e = (a : ℕ) → m' a ≡ (if (leb p a && ltb a e) && is_blank (m a) then 0 else m a)

pub Changed-none :
    (m : Mem) (p e : ℕ) → ((a : ℕ) → p ≤ a → a < e → is_blank (m a) ≡ false) → Changed m m p e
Changed-none m p e h a = elim (Bool-cases (leb p a && ltb a e)) [
  | inl within ↦ rw (within, h a (ground arith) (ground arith)) refl
  | inr outside ↦ rw outside refl
]

pub Changed-trans :
    (m m1 m2 : Mem) (p e q : ℕ)
    → p ≤ e
    → e ≤ q
    → Changed m m1 p e
    → Changed m1 m2 e q
    → Changed m m2 p q
Changed-trans m m1 m2 p e q lo hi h k a = elim (Bool-cases (ltb a e)) [
  | inl before ↦ let same : m2 a ≡ m1 a = k a ∙ ground arith in same ∙ h a ∙ ground arith
  | inr behind ↦ let same : m1 a ≡ m a = h a ∙ ground arith in k a ∙ rw same (ground arith)
]

pub Changed-write : (m : Mem) (p : ℕ) → is_blank (m p) ≡ true → Changed m (write m p 0) p (p + 1)
unfolding write
Changed-write m p h a = elim (Bool-cases (a == p)) [
  | inl at ↦ let e : a ≡ p = ground arith in rw e (ground arith)
  | inr off ↦ ground arith
]

-- no blank in front, or no character left
abbrev pub StartsWord : List ℕ → Type 0
StartsWord [] = Unit {0}
StartsWord (c ∷ cs) = is_blank c ≡ false

pub gobble-line :
    (f : ℕ) (m : Mem) (p : ℕ) (cs : List ℕ)
    → CString m p cs
    → length cs < f
    → (m1 : Mem) × (e : ℕ) × (cs1 : List ℕ) × (gobble f m p ≡ some (m1, e))
      × (p ≤ e)
      × (e + length cs1 ≡ p + length cs)
      × Changed m m1 p e
      × CString m1 e cs1
      × (starts true p cs ≡ starts true e cs1)
      × StartsWord cs1
unfolding gobble
gobble-line zero m p cs h fuel = absurd (omega arith)
gobble-line (suc f) m p [] h fuel = (
  m,
  p,
  [],
  rw (h, gobble) refl,
  omega arith,
  refl,
  Changed-none m p p (λ a lo hi. absurd (omega arith)),
  h,
  refl,
  tt,
)
gobble-line (suc f) m p (c ∷ cs) h fuel = elim (Bool-cases (is_blank c)) [
  | inl blank ↦
      let here : is_blank (m p) ≡ true = rw h.0 blank in
      let rest : CString (write m p 0) (p + 1) cs =
        CString-same m (write m p 0) (p + 1) cs (λ a lo hi. unfold write in ground arith) h.2 in
      let (m1, e, cs1, run, lo, len, changed, str, same, word) =
        gobble-line f (write m p 0) (p + 1) cs rest (omega arith) in
      (
        m1,
        e,
        cs1,
        rw (here, gobble) run,
        omega arith,
        omega arith,
        Changed-trans m (write m p 0) m1 p (p + 1) e (omega arith) lo (Changed-write m p here)
            changed,
        str,
        rw blank same,
        word,
      )
  | inr other ↦
      let here : is_blank (m p) ≡ false = rw h.0 other in
      (
        m,
        p,
        c ∷ cs,
        rw (here, gobble) refl,
        omega arith,
        refl,
        Changed-none m p p (λ a lo hi. absurd (omega arith)),
        h,
        refl,
        other,
      )
]

pub scan_arg-line :
    (f : ℕ) (m : Mem) (p : ℕ) (cs : List ℕ)
    → CString m p cs
    → length cs < f
    → (e : ℕ) × (cs1 : List ℕ) × (scan_arg f m p ≡ some e)
      × (p ≤ e)
      × (e + length cs1 ≡ p + length cs)
      × CString m e cs1
      × (starts false p cs ≡ starts true e cs1)
      × ((a : ℕ) → p ≤ a → a < e → is_blank (m a) ≡ false)
      × (is_blank (m p) ≡ false → m p ≢ 0 → p < e)
unfolding scan_arg
scan_arg-line zero m p cs h fuel = absurd (omega arith)
scan_arg-line (suc f) m p [] h fuel = (
  p,
  [],
  rw (h, scan_arg) refl,
  omega arith,
  refl,
  h,
  refl,
  λ a lo hi. absurd (omega arith),
  λ o n. absurd (n h),
)
scan_arg-line (suc f) m p (c ∷ cs) h fuel =
    let nonzero : (m p == 0) ≡ false = ground arith in
    elim (Bool-cases (is_blank c)) [
      | inl blank ↦
          let here : is_blank (m p) ≡ true = rw h.0 blank in
          (
            p,
            c ∷ cs,
            rw (nonzero, here, scan_arg) refl,
            omega arith,
            refl,
            h,
            rw blank refl,
            λ a lo hi. absurd (omega arith),
            λ o n. absurd (ground arith),
          )
      | inr other ↦
          let here : is_blank (m p) ≡ false = rw h.0 other in
          let (e, cs1, run, lo, len, str, same, clear, on) =
            scan_arg-line f m (p + 1) cs h.2 (omega arith) in
          (
            e,
            cs1,
            rw (nonzero, here, scan_arg) run,
            omega arith,
            omega arith,
            str,
            rw other same,
            λ a alo ahi. elim (Bool-cases (a == p)) [
              | inl at ↦ let same_a : a ≡ p = ground arith in rw same_a here
              | inr off ↦ clear a (ground arith) ahi
            ],
            λ o n. omega arith,
          )
    ]

-- ===== src/Str/Compare.antt =====
-- The comparing routines of lib/string.c: strcmp, strncmp and memcmp. The int that they return is
-- an integer over the native numbers.
use vukernelprogramming.Prelude.{
  ℕ, zero, suc, ◌+◌, ◌<◌, ◌≡◌, refl, ◌&&◌, Option, none, some, List, [], ◌∷◌, arith, ◌==◌,
  if◌then◌else◌, length, Bool-cases, inl, inr, not, ◌↔◌,
}
use vukernelprogramming.Prelude.Int.{ℤ, pos, sub_ℕ}
use vukernelprogramming.Memory.{Mem, CString}

-- (int) ((unsigned char) *p - (unsigned char) *q), on bytes
abbrev diff : Mem → ℕ → ℕ → ℤ
diff m p q = sub_ℕ (m p) (m q)

unfoldable pub strcmp : ℕ → Mem → ℕ → ℕ → Option ℤ
strcmp zero m p q = none
strcmp (suc f) m p q =
    let rest = strcmp f m (p + 1) (q + 1) in
    if not (m p == 0) && (m p == m q) then rest else some (diff m p q)

unfoldable pub strncmp : Mem → ℕ → ℕ → ℕ → ℤ
strncmp m p q zero = pos 0
strncmp m p q (suc n) =
    let rest = strncmp m (p + 1) (q + 1) n in
    if not (m p == 0) && (m p == m q) then rest else diff m p q

unfoldable pub memcmp : Mem → ℕ → ℕ → ℕ → ℤ
memcmp m s1 s2 zero = pos 0
memcmp m s1 s2 (suc n) =
    let rest = memcmp m (s1 + 1) (s2 + 1) n in
    if not (m s1 == m s2) then sub_ℕ (m s1) (m s2) else rest

-- the dictionary order of two strings, as a sign: the reference for strcmp
abbrev pub compare_chars : List ℕ → List ℕ → ℤ
compare_chars [] [] = pos 0
compare_chars [] (d ∷ ds) = sub_ℕ 0 d
compare_chars (c ∷ cs) [] = pos c
compare_chars (c ∷ cs) (d ∷ ds) = if c == d then compare_chars cs ds else sub_ℕ c d

-- On two strings, the first of fewer characters than the fuel, strcmp returns the difference of
-- the first characters that differ, where a string that has ended counts as 0, and 0 if none do.
pub strcmp-compare_chars :
    (f : ℕ) (m : Mem) (p q : ℕ) (cs ds : List ℕ)
    → CString m p cs
    → CString m q ds
    → length cs < f
    → strcmp f m p q ≡ some (compare_chars cs ds)
unfolding strcmp
strcmp-compare_chars zero m p q cs ds hp hq e = absurd (omega arith)
strcmp-compare_chars (suc f) m p q [] [] hp hq e = ground arith
strcmp-compare_chars (suc f) m p q [] (d ∷ ds) hp hq e = ground arith
strcmp-compare_chars (suc f) m p q (c ∷ cs) [] hp hq e = ground arith
strcmp-compare_chars (suc f) m p q (c ∷ cs) (d ∷ ds) hp hq e =
    ground (arith, strcmp-compare_chars f m (p + 1) (q + 1) cs ds hp.2 hq.2)

compare_chars-eq :
    (cs ds : List ℕ) (m : Mem) (p q : ℕ)
    → CString m p cs
    → CString m q ds
    → compare_chars cs ds ≡ pos 0
    → cs ≡ ds
compare_chars-eq [] [] m p q hp hq e = refl
compare_chars-eq [] (d ∷ ds) m p q hp hq e = absurd (ground arith)
compare_chars-eq (c ∷ cs) [] m p q hp hq e = absurd (ground arith)
compare_chars-eq (c ∷ cs) (d ∷ ds) m p q hp hq e =
    ground (arith, compare_chars-eq cs ds m (p + 1) (q + 1) hp.2 hq.2)

compare_chars_self : (cs : List ℕ) → compare_chars cs cs ≡ pos 0
compare_chars_self [] = refl
compare_chars_self (c ∷ cs) = ground (arith, compare_chars_self cs)

-- On two strings, the first of fewer characters than the fuel, strcmp returns 0 exactly when the
-- strings have the same characters.
pub strcmp-eq_iff :
    (f : ℕ) (m : Mem) (p q : ℕ) (cs ds : List ℕ)
    → CString m p cs
    → CString m q ds
    → length cs < f
    → (strcmp f m p q ≡ some (pos 0)) ↔ (cs ≡ ds)
strcmp-eq_iff f m p q cs ds hp hq e = (
  λ z.
      compare_chars-eq cs ds m p q hp hq
        (ground (arith, strcmp-compare_chars f m p q cs ds hp hq e)),
  λ z. ground (arith, strcmp-compare_chars f m p q cs ds hp hq e, compare_chars_self cs),
)

abbrev SameBlock : Mem → ℕ → ℕ → ℕ → Type 0
SameBlock m s1 s2 n = (i : ℕ) → i < n → m (s1 + i) ≡ m (s2 + i)

SameBlock-suc :
    (m : Mem) (s1 s2 n : ℕ)
    → m s1 ≡ m s2
    → SameBlock m (s1 + 1) (s2 + 1) n
    → SameBlock m s1 s2 (suc n)
SameBlock-suc m s1 s2 n e h zero k = ground arith
SameBlock-suc m s1 s2 n e h (suc i) k = ground (arith, h i)

SameBlock-tail :
    (m : Mem) (s1 s2 n : ℕ) → SameBlock m s1 s2 (suc n) → SameBlock m (s1 + 1) (s2 + 1) n
SameBlock-tail m s1 s2 n h i k = ground (arith, h (suc i))

-- memcmp returns 0 exactly when the two blocks hold the same bytes.
pub memcmp-eq_iff :
    (m : Mem) (s1 s2 n : ℕ)
    → (memcmp m s1 s2 n ≡ pos 0) ↔ ((i : ℕ) → i < n → m (s1 + i) ≡ m (s2 + i))
unfolding memcmp
memcmp-eq_iff m s1 s2 zero = (λ e i h. absurd (omega arith), λ h. refl)
memcmp-eq_iff m s1 s2 (suc n) =
    let ih = memcmp-eq_iff m (s1 + 1) (s2 + 1) n in
    elim (Bool-cases (m s1 == m s2)) [
      | inl same ↦ rw same (
        λ e. SameBlock-suc m s1 s2 n (ground arith) (ih.0 e),
        λ h. ih.1 (SameBlock-tail m s1 s2 n h),
      )
      | inr other ↦ rw other (λ e. absurd (ground arith), λ h. absurd (ground (arith, h 0)))
    ]

abbrev pub take : ℕ → List ℕ → List ℕ
take zero xs = []
take (suc n) [] = []
take (suc n) (x ∷ xs) = x ∷ take n xs

-- On two strings strncmp is the comparison of their first `n` characters.
pub strncmp-take :
    (m : Mem) (p q n : ℕ) (cs ds : List ℕ)
    → CString m p cs
    → CString m q ds
    → strncmp m p q n ≡ compare_chars (take n cs) (take n ds)
unfolding strncmp
strncmp-take m p q zero cs ds hp hq = refl
strncmp-take m p q (suc n) [] [] hp hq = ground arith
strncmp-take m p q (suc n) [] (d ∷ ds) hp hq = ground arith
strncmp-take m p q (suc n) (c ∷ cs) [] hp hq = ground arith
strncmp-take m p q (suc n) (c ∷ cs) (d ∷ ds) hp hq =
    ground (arith, strncmp-take m (p + 1) (q + 1) n cs ds hp.2 hq.2)

-- ===== src/Monitor/Words.antt =====
-- The words of a line, where they start, and the line in memory with its blanks overwritten: what
-- the parser of runcmd is compared with.
use vukernelprogramming.Prelude.{
  ℕ, suc, ◌+◌, ◌≤◌, ◌<◌, ◌≡◌, Bool, true, false, List, [], ◌∷◌, arith, if◌then◌else◌, length,
  Bool-cases, inl, inr,
}
use vukernelprogramming.Memory.{Mem, CString}
use vukernelprogramming.Monitor.{is_blank}

-- the addresses at which words start, before a word (`true`) or inside one
abbrev pub starts : Bool → ℕ → List ℕ → List ℕ
starts before p [] = []
starts true p (c ∷ cs) = if is_blank c then starts true (p + 1) cs else p ∷ starts false (p + 1) cs
starts false p (c ∷ cs) = if is_blank c then starts true (p + 1) cs else starts false (p + 1) cs

-- the characters up to the first blank
abbrev pub first_word : List ℕ → List ℕ
first_word [] = []
first_word (c ∷ cs) = if is_blank c then [] else c ∷ first_word cs

abbrev pub words : Bool → List ℕ → List (List ℕ)
words before [] = []
words true (c ∷ cs) = if is_blank c then words true cs else first_word (c ∷ cs) ∷ words false cs
words false (c ∷ cs) = if is_blank c then words true cs else words false cs

-- the strings at the addresses `ps`
abbrev pub Strings : Mem → List ℕ → List (List ℕ) → Type 0
Strings m [] [] = Unit {0}
Strings m (p ∷ ps) (w ∷ ws) = CString m p w × Strings m ps ws
Strings m [] (w ∷ ws) = ⊥
Strings m (p ∷ ps) [] = ⊥

-- two memories of which the second has 0 for each blank from `p` to the NUL behind `n` characters
abbrev pub Blanked : Mem → Mem → ℕ → ℕ → Type 0
Blanked m m' p n = (a : ℕ) → p ≤ a → a < p + n + 1 → m' a ≡ (if is_blank (m a) then 0 else m a)

Blanked-tail : (m m' : Mem) (p n : ℕ) → Blanked m m' p (suc n) → Blanked m m' (p + 1) n
Blanked-tail m m' p n h a lo hi = h a (omega arith) (omega arith)

first_word-CString :
    (m m' : Mem) (p : ℕ) (cs : List ℕ)
    → CString m p cs
    → Blanked m m' p (length cs)
    → CString m' p (first_word cs)
first_word-CString m m' p [] h b = ground (arith, b p)
first_word-CString m m' p (c ∷ cs) h b = elim (Bool-cases (is_blank c)) [
  | inl blank ↦ rw blank (ground (arith, b p))
  | inr other ↦ rw other (
    ground (arith, b p),
    h.1,
    first_word-CString m m' (p + 1) cs h.2 (Blanked-tail m m' p (length cs) b),
  )
]

mutual
  starts-Strings :
      (m m' : Mem) (p : ℕ) (cs : List ℕ)
      → CString m p cs
      → Blanked m m' p (length cs)
      → Strings m' (starts true p cs) (words true cs)
  starts-Strings m m' p [] h b = tt
  starts-Strings m m' p (c ∷ cs) h b = elim (Bool-cases (is_blank c)) [
    | inl blank ↦ rw blank (starts-Strings m m' (p + 1) cs h.2 (Blanked-tail m m' p (length cs) b))
    | inr other ↦ rw other (
      rw other at (first_word-CString m m' p (c ∷ cs) h b),
      inside-Strings m m' (p + 1) cs h.2 (Blanked-tail m m' p (length cs) b),
    )
  ]

  inside-Strings :
      (m m' : Mem) (p : ℕ) (cs : List ℕ)
      → CString m p cs
      → Blanked m m' p (length cs)
      → Strings m' (starts false p cs) (words false cs)
  inside-Strings m m' p [] h b = tt
  inside-Strings m m' p (c ∷ cs) h b = elim (Bool-cases (is_blank c)) [
    | inl blank ↦ rw blank (starts-Strings m m' (p + 1) cs h.2 (Blanked-tail m m' p (length cs) b))
    | inr other ↦ rw other (inside-Strings m m' (p + 1) cs h.2 (Blanked-tail m m' p (length cs) b))
  ]

-- In a memory with the blanks of the line overwritten, the words of the line are the strings at the
-- addresses where they start.
pub words-Strings :
    (m m' : Mem) (p : ℕ) (cs : List ℕ)
    → CString m p cs
    → Blanked m m' p (length cs)
    → Strings m' (starts true p cs) (words true cs)
words-Strings m m' p cs h b = starts-Strings m m' p cs h b

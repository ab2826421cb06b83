-- ===== src/Memory/Strings.antt =====
-- NUL-terminated strings in memory under changes elsewhere.
use vukernelprogramming.Prelude.{
  ℕ, zero, suc, ◌+◌, ◌≤◌, ◌<◌, ◌≡◌, ◌≢◌, List, [], ◌∷◌, ◌++◌, arith, length,
}
use vukernelprogramming.Memory.{Mem, CString}

-- memories that agree on the string and its NUL hold the same string
pub CString-same :
    (m m' : Mem) (p : ℕ) (cs : List ℕ)
    → ((a : ℕ) → p ≤ a → a ≤ p + length cs → m' a ≡ m a)
    → CString m p cs
    → CString m' p cs
CString-same m m' p [] h s = ground (arith, h p)
CString-same m m' p (c ∷ cs) h s = (
  ground (arith, h p),
  s.1,
  CString-same m m' (p + 1) cs (λ a lo hi. h a (omega arith) (omega arith)) s.2,
)

-- a string moved to another address
pub CString-moved :
    (m m' : Mem) (s d : ℕ) (cs : List ℕ)
    → ((i : ℕ) → i ≤ length cs → m' (d + i) ≡ m (s + i))
    → CString m s cs
    → CString m' d cs
CString-moved m m' s d [] h e = ground (arith, h 0)
CString-moved m m' s d (c ∷ cs) h e = (
  ground (arith, h 0),
  e.1,
  CString-moved m m' (s + 1) (d + 1) cs (λ i k. ground (arith, h (suc i))) e.2,
)

-- the characters of one string, then those of a string at its NUL
pub CString-append :
    (m : Mem) (p : ℕ) (ds cs : List ℕ)
    → ((i : ℕ) → i < length ds → m (p + i) ≢ 0)
    → CString m (p + length ds) cs
    → (m' : Mem) → CString m' p ds
    → ((i : ℕ) → i < length ds → m (p + i) ≡ m' (p + i))
    → CString m p (ds ++ cs)
CString-append m p [] cs nz h m' h' e = let e0 : p + 0 ≡ p = omega arith in rw e0 at h
CString-append m p (d ∷ ds) cs nz h m' h' e =
    let next : p + suc (length ds) ≡ p + 1 + length ds = omega arith in
    (
      ground (arith, e 0),
      h'.1,
      CString-append m (p + 1) ds cs (λ i k z. nz (suc i) (omega arith) (ground arith))
          (rw next at h) m' h'.2 (λ i k. ground (arith, e (suc i))),
    )

pub CString-nonzero :
    (m : Mem) (p : ℕ) (cs : List ℕ) (i : ℕ) → CString m p cs → i < length cs → m (p + i) ≢ 0
CString-nonzero m p [] i h k = absurd (omega arith)
CString-nonzero m p (c ∷ cs) zero h k = ground arith
CString-nonzero m p (c ∷ cs) (suc i) h k = ground (arith, CString-nonzero m (p + 1) cs i h.2)

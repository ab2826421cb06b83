-- ===== src/Str/Copy/Whole.antt =====
-- strcpy and strcat copy the whole string with its NUL.
use mathlib.Core.Path.{fun_ext}
use vukernelprogramming.Prelude.{
  ℕ, zero, suc, ◌+◌, ◌≤◌, ◌<◌, ◌≡◌, List, [], ◌∷◌, ◌++◌, arith, length, ◌⊎◌, some, ◌==◌, ap, ◌∙◌,
  true, false,
}
use vukernelprogramming.Memory.{Mem, CString, block_copy, write}
use vukernelprogramming.Memory.Strings.{
  CString-same, CString-moved, CString-append, CString-nonzero,
}
use vukernelprogramming.Str.Scan.{strlen-length}
use vukernelprogramming.Str.Copy.{strcpy_loop, strcpy, strcat}

-- the blocks of `n` bytes at `p` and `q` have no byte in common
abbrev pub Apart : ℕ → ℕ → ℕ → Type 0
Apart p q n = (p + n ≤ q) ⊎ (q + n ≤ p)

strcpy_loop-copy :
    (f : ℕ) (m : Mem) (d s : ℕ) (cs : List ℕ)
    → CString m s cs
    → length cs < f
    → Apart d s (suc (length cs))
    → strcpy_loop f m d s ≡ some (block_copy m d s (suc (length cs)))
unfolding strcpy_loop write
strcpy_loop-copy zero m d s cs h e o = absurd (omega arith)
strcpy_loop-copy (suc f) m d s [] h e o =
    let z : (m s == 0) ≡ true = ground arith in rw z (ap some (fun_ext (λ a. ground arith)))
strcpy_loop-copy (suc f) m d s (c ∷ cs) h e o =
    let z : (m s == 0) ≡ false = ground arith in
    let m' : Mem = write m d (m s) in
    let h' : CString m' (s + 1) cs = CString-same m m' (s + 1) cs (λ a lo hi. ground arith) h.2 in
    rw z (
      strcpy_loop-copy f m' (d + 1) (s + 1) cs h' (omega arith) (ground arith)
      ∙ ap some (fun_ext (λ a. ground arith)))

-- Where the string of fewer characters than the fuel and its copy do not overlap, strcpy copies
-- the characters and the NUL, and changes nothing else.
pub strcpy-block_copy :
    (f : ℕ) (m : Mem) (d s : ℕ) (cs : List ℕ)
    → CString m s cs
    → length cs < f
    → Apart d s (suc (length cs))
    → strcpy f m d s ≡ some (block_copy m d s (suc (length cs)))
unfolding strcpy
strcpy-block_copy f m d s cs h e o = strcpy_loop-copy f m d s cs h e o

-- Where neither string is longer than the fuel allows and the copy overlaps neither the source
-- nor the first string's characters, strcat leaves at `d` the string of both, and changes nothing
-- outside the copy.
pub strcat-append :
    (f : ℕ) (m : Mem) (d s : ℕ) (ds cs : List ℕ)
    → CString m d ds
    → CString m s cs
    → length ds < f
    → length cs < f
    → Apart (d + length ds) s (suc (length cs))
    → (m' : Mem) × (strcat f m d s ≡ some m')
      × CString m' d (ds ++ cs)
      × ((a : ℕ) → (a < d + length ds) ⊎ (d + length ds + length cs < a) → m' a ≡ m a)
unfolding strcat
strcat-append f m d s ds cs hd hs ed es o =
    let m' : Mem = block_copy m (d + length ds) s (suc (length cs)) in
    (
      m',
      rw (strlen-length f m d ds hd ed, strcat)
          (strcpy-block_copy f m (d + length ds) s cs hs es o),
      CString-append m' d ds cs (λ i k. ground (arith, CString-nonzero m d ds i hd k))
          (CString-moved m m' s (d + length ds) cs (λ i k. ground arith) hs) m hd
          (λ i k. ground arith),
      λ a k. ground arith,
    )

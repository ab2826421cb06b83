-- ===== src/Str/Copy/Bounded.antt =====
-- strncpy and strlcpy write no further than the size that they are given.
use vukernelprogramming.Prelude.{
  ℕ, zero, suc, ◌+◌, ◌-◌, ◌≤◌, ◌<◌, ◌≡◌, List, [], ◌∷◌, arith, length, ◌⊎◌, ◌==◌, if◌then◌else◌,
  true, false, leb, ltb,
}
use vukernelprogramming.Memory.{Mem, CString, write, within}
use vukernelprogramming.Memory.Strings.{CString-same}
use vukernelprogramming.Str.Copy.{strncpy_loop, strncpy, strlcpy_loop, strlcpy}

-- the `n` bytes at `d` and the `k` bytes at `s` have no byte in common
abbrev pub Disjoint : ℕ → ℕ → ℕ → ℕ → Type 0
Disjoint d n s k = (d + n ≤ s) ⊎ (s + k ≤ d)

strncpy_loop-pad :
    (size : ℕ) (m : Mem) (d s : ℕ) (cs : List ℕ) (a : ℕ)
    → CString m s cs
    → Disjoint d size s (suc (length cs))
    → strncpy_loop size m d s a
      ≡ (if within d size a then (if ltb (a - d) (length cs) then m (s + (a - d)) else 0) else m a)
unfolding strncpy_loop write
strncpy_loop-pad zero m d s cs a h o = ground arith
strncpy_loop-pad (suc n) m d s [] a h o =
    let m' : Mem = write m d (m s) in
    let stay : (m' s == 0) ≡ true = ground arith in
    let here : m' s ≡ 0 = ground arith in
    rw stay (ground (arith, strncpy_loop-pad n m' (d + 1) s [] a here))
strncpy_loop-pad (suc n) m d s (c ∷ cs) a h o =
    let m' : Mem = write m d (m s) in
    let h' : CString m' (s + 1) cs = CString-same m m' (s + 1) cs (λ b lo hi. ground arith) h.2 in
    let step : (m' s == 0) ≡ false = ground arith in
    rw step (ground (arith, strncpy_loop-pad n m' (d + 1) (s + 1) cs a h'))

-- Where the source string and the `size` bytes of the destination do not overlap, strncpy leaves
-- in them the first `size` characters of the string, then NULs if the string is shorter, and
-- changes nothing else.
pub strncpy-pad :
    (m : Mem) (d s size : ℕ) (cs : List ℕ) (a : ℕ)
    → CString m s cs
    → Disjoint d size s (suc (length cs))
    → strncpy m d s size a
      ≡ (if within d size a then (if ltb (a - d) (length cs) then m (s + (a - d)) else 0) else m a)
unfolding strncpy
strncpy-pad m d s size cs a h o = strncpy_loop-pad size m d s cs a h o

-- `n` or the length, whichever is less
abbrev pub fits : ℕ → List ℕ → ℕ
fits n cs = if leb n (length cs) then n else length cs

strlcpy_loop-truncate :
    (left : ℕ) (m : Mem) (d s : ℕ) (cs : List ℕ) (a : ℕ)
    → CString m s cs
    → Disjoint d (suc left) s (suc (length cs))
    → ((strlcpy_loop left m d s).1 ≡ d + fits left cs)
      × ((strlcpy_loop left m d s).0 a ≡ (
          if within d (fits left cs) a
          then m (s + (a - d))
          else if a == d + fits left cs
          then 0
          else m a))
unfolding strlcpy_loop write
strlcpy_loop-truncate zero m d s cs a h o = ground arith
strlcpy_loop-truncate (suc n) m d s [] a h o = ground arith
strlcpy_loop-truncate (suc n) m d s (c ∷ cs) a h o =
    let m' : Mem = write m d (m s) in
    let h' : CString m' (s + 1) cs = CString-same m m' (s + 1) cs (λ b lo hi. ground arith) h.2 in
    let step : (m s == 0) ≡ false = ground arith in
    rw step (ground (arith, strlcpy_loop-truncate n m' (d + 1) (s + 1) cs a h'))

-- Where the source string and the `size` bytes of the destination do not overlap and `size` is
-- not 0, strlcpy copies `size - 1` characters, or all if there are fewer, puts a NUL behind them,
-- changes nothing else, and returns how many characters it copied.
pub strlcpy-truncate :
    (m : Mem) (d s size : ℕ) (cs : List ℕ) (a : ℕ)
    → CString m s cs
    → 0 < size
    → Disjoint d size s (suc (length cs))
    → ((strlcpy m d s size).1 ≡ fits (size - 1) cs)
      × ((strlcpy m d s size).0 a ≡ (
          if within d (fits (size - 1) cs) a
          then m (s + (a - d))
          else if a == d + fits (size - 1) cs
          then 0
          else m a))
unfolding strlcpy
strlcpy-truncate m d s zero cs a h p o = absurd (omega arith)
strlcpy-truncate m d s (suc n) cs a h p o =
    let e : suc n - 1 ≡ n = omega arith in
    rw e (ground (arith, strlcpy_loop-truncate n m d s cs a h o))

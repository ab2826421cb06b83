-- ===== src/Str/Scan.antt =====
-- The scanning routines of lib/string.c: strlen, strnlen, strchr, strfind and memfind.
-- A loop over a string takes fuel, and `none` says that the fuel ran out; a null pointer is 0.
use vukernelprogramming.Prelude.{
  ℕ, zero, suc, ◌+◌, ◌%◌, ◌≤◌, ◌<◌, ◌≡◌, ◌≢◌, Bool, true, false, Option, none, some, List, [], ◌∷◌,
  arith, leb, ◌==◌, if◌then◌else◌, length, Bool-cases, inl, inr,
}
use vukernelprogramming.Memory.{Mem, CString}

-- for (n = 0; *s != '\0'; s++) n++;
strlen_loop : ℕ → Mem → ℕ → ℕ → Option ℕ
strlen_loop zero m s n = none
strlen_loop (suc f) m s n =
    let rest = strlen_loop f m (s + 1) (n + 1) in if m s == 0 then some n else rest

unfoldable pub strlen : ℕ → Mem → ℕ → Option ℕ
unfolding strlen_loop
strlen f m s = strlen_loop f m s 0

-- for (n = 0; size > 0 && *s != '\0'; s++, size--) n++;
strnlen_loop : Mem → ℕ → ℕ → ℕ → ℕ
strnlen_loop m zero s n = n
strnlen_loop m (suc size) s n =
    let rest = strnlen_loop m size (s + 1) (n + 1) in if m s == 0 then n else rest

unfoldable pub strnlen : Mem → ℕ → ℕ → ℕ
unfolding strnlen_loop
strnlen m s size = strnlen_loop m size s 0

-- the first occurrence of `c`, or null
unfoldable pub strchr : ℕ → Mem → ℕ → ℕ → Option ℕ
strchr zero m s c = none
strchr (suc f) m s c =
    let rest = strchr f m (s + 1) c in
    if m s == 0 then some 0 else if m s == c then some s else rest

-- the first occurrence of `c`, or the terminating NUL
unfoldable pub strfind : ℕ → Mem → ℕ → ℕ → Option ℕ
strfind zero m s c = none
strfind (suc f) m s c =
    let rest = strfind f m (s + 1) c in
    if m s == 0 then some s else if m s == c then some s else rest

-- `left` is `ends - s`
memfind_loop : Mem → ℕ → ℕ → ℕ → ℕ
memfind_loop m c zero s = s
memfind_loop m c (suc left) s =
    let rest = memfind_loop m c left (s + 1) in if m s == c % 256 then s else rest

unfoldable pub memfind : Mem → ℕ → ℕ → ℕ → ℕ
unfolding memfind_loop
memfind m s c n = memfind_loop m c n s

-- the position of the first `c` among the characters, or their number
abbrev pub index_of : ℕ → List ℕ → ℕ
index_of c [] = 0
index_of c (x ∷ xs) = if x == c then 0 else suc (index_of c xs)

abbrev pub has : ℕ → List ℕ → Bool
has c [] = false
has c (x ∷ xs) = if x == c then true else has c xs

strlen_loop-length :
    (f : ℕ) (m : Mem) (s n : ℕ) (cs : List ℕ)
    → CString m s cs
    → length cs < f
    → strlen_loop f m s n ≡ some (n + length cs)
unfolding strlen_loop
strlen_loop-length zero m s n cs h e = absurd (omega arith)
strlen_loop-length (suc f) m s n [] h e = ground arith
strlen_loop-length (suc f) m s n (c ∷ cs) h e =
    ground (arith, strlen_loop-length f m (s + 1) (n + 1) cs h.2)

-- On a string of fewer characters than the fuel, strlen returns their number.
pub strlen-length :
    (f : ℕ) (m : Mem) (s : ℕ) (cs : List ℕ)
    → CString m s cs
    → length cs < f
    → strlen f m s ≡ some (length cs)
unfolding strlen
strlen-length f m s cs h e = ground (arith, strlen_loop-length f m s 0 cs h e)

abbrev min_of : ℕ → ℕ → ℕ
min_of a b = if leb a b then a else b

strnlen_loop-length :
    (m : Mem) (size s n : ℕ) (cs : List ℕ)
    → CString m s cs
    → strnlen_loop m size s n ≡ n + min_of size (length cs)
unfolding strnlen_loop
strnlen_loop-length m zero s n cs h = ground arith
strnlen_loop-length m (suc size) s n [] h = ground arith
strnlen_loop-length m (suc size) s n (c ∷ cs) h =
    ground (arith, strnlen_loop-length m size (s + 1) (n + 1) cs h.2)

-- strnlen returns the length of the string or the bound, whichever is less.
pub strnlen-length :
    (m : Mem) (s size : ℕ) (cs : List ℕ)
    → CString m s cs
    → strnlen m s size ≡ (if leb size (length cs) then size else length cs)
unfolding strnlen
strnlen-length m s size cs h = ground (arith, strnlen_loop-length m size s 0 cs h)

-- On a string of fewer characters than the fuel, strfind returns the address of the first `c`, or
-- that of the terminating NUL if the string has none; strchr returns the same in the first case,
-- and null in the second.
pub strchr-strfind :
    (f : ℕ) (m : Mem) (s c : ℕ) (cs : List ℕ)
    → CString m s cs
    → length cs < f
    → (strfind f m s c ≡ some (s + index_of c cs))
      × (strchr f m s c ≡ some (if has c cs then s + index_of c cs else 0))
unfolding strfind strchr
strchr-strfind zero m s c cs h e = absurd (omega arith)
strchr-strfind (suc f) m s c [] h e = ground arith
strchr-strfind (suc f) m s c (x ∷ cs) h e = ground (arith, strchr-strfind f m (s + 1) c cs h.2)

memfind_loop-first :
    (m : Mem) (c n s : ℕ)
    → (s ≤ memfind_loop m c n s)
      × (memfind_loop m c n s ≤ s + n)
      × ((a : ℕ) → s ≤ a → a < memfind_loop m c n s → m a ≢ c % 256)
      × (memfind_loop m c n s < s + n → m (memfind_loop m c n s) ≡ c % 256)
unfolding memfind_loop
memfind_loop-first m c zero s =
    (omega arith, omega arith, λ a h k. absurd (omega arith), λ h. absurd (omega arith))
memfind_loop-first m c (suc n) s = elim (Bool-cases (m s == c % 256)) [
  | inl hit ↦ rw hit (omega arith, omega arith, λ a h k. absurd (omega arith), λ h. ground arith)
  | inr miss ↦
      let ih = memfind_loop-first m c n (s + 1) in
      rw miss (
        omega arith,
        omega arith,
        λ a h k. elim (Bool-cases (a == s)) [
          | inl here ↦ ground arith
          | inr later ↦ ih.2 a (ground arith) k
        ],
        λ h. ih.3 (omega arith),
      )
]

-- memfind returns the first address of [s, s + n) whose byte is `c` modulo 256, and `s + n` if
-- there is none.
pub memfind_first :
    (m : Mem) (s c n : ℕ)
    → (s ≤ memfind m s c n)
      × (memfind m s c n ≤ s + n)
      × ((a : ℕ) → s ≤ a → a < memfind m s c n → m a ≢ c % 256)
      × (memfind m s c n < s + n → m (memfind m s c n) ≡ c % 256)
unfolding memfind
memfind_first m s c n = memfind_loop-first m c n s

-- ===== src/Memory.antt =====
-- Flat byte-addressed memory, as the kernel's C code sees it: an address is a number, and each
-- address holds a byte. The string and memory routines of lib/string.c read and write it.
pub mod Strings
use vukernelprogramming.Prelude.{
  ℕ, ◌+◌, ◌-◌, ◌≡◌, ◌≢◌, Bool, ◌&&◌, List, [], ◌∷◌, leb, ltb, ◌==◌, if◌then◌else◌,
}

abbrev pub Mem : Type 0
Mem = ℕ → ℕ

-- `*p = v`
unfoldable pub write : Mem → ℕ → ℕ → Mem
write m p v a = if a == p then v else m a

-- the address `a` lies in [p, p + n)
abbrev pub within : ℕ → ℕ → ℕ → Bool
within p n a = leb p a && ltb a (p + n)

-- the memory after a copy of `n` bytes: what the copying routines are compared with
abbrev pub block_copy : Mem → ℕ → ℕ → ℕ → Mem
block_copy m d s n a = if within d n a then m (s + (a - d)) else m a

-- a NUL-terminated string with the characters `cs` starts at `p`
abbrev pub CString : Mem → ℕ → List ℕ → Type 0
CString m p [] = m p ≡ 0
CString m p (c ∷ cs) = (m p ≡ c) × (c ≢ 0) × CString m (p + 1) cs

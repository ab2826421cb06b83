-- ===== src/Str/Block.antt =====
-- memset, memmove and memcpy of lib/string.c, as the kernel is compiled (`#define ASM 1`): by the
-- x86 string instructions, a unit of four bytes at a time where the alignment allows it.
pub mod Fill
pub mod Move
pub mod Plain
use vukernelprogramming.Prelude.{
  ℕ, zero, suc, ◌+◌, ◌-◌, ◌*◌, ◌/◌, ◌%◌, ◌^◌, ◌≤◌, ◌<◌, ◌≡◌, refl, ◌⊎◌, inl, inr, Bool, true, false,
  ◌&&◌, arith, leb, ltb, ◌==◌, if◌then◌else◌, Bool-cases, ==_iff,
}
use Prim.Native.Nat.{bit_or}
use vukernelprogramming.Memory.{Mem, write, within}

-- the byte that `stosb` stores, and `rep stosb`
rep_stosb : ℕ → Mem → ℕ → ℕ → Mem
rep_stosb zero m d w = m
rep_stosb (suc n) m d w = rep_stosb n (write m d (w % 2 ^ 8)) (d + 1) w

-- `stosl` stores the register least significant byte first
stosl : Mem → ℕ → ℕ → Mem
stosl m d w =
    write
      (write (write (write m d (w % 2 ^ 8)) (d + 1) (w / 2 ^ 8 % 2 ^ 8)) (d + 2)
        (w / 2 ^ 16 % 2 ^ 8))
      (d + 3) (w / 2 ^ 24 % 2 ^ 8)

rep_stosl : ℕ → Mem → ℕ → ℕ → Mem
rep_stosl zero m d w = m
rep_stosl (suc n) m d w = rep_stosl n (stosl m d w) (d + 4) w

-- c = (c<<24)|(c<<16)|(c<<8)|c
spread : ℕ → ℕ
spread c = bit_or (bit_or (bit_or (c * 2 ^ 24) (c * 2 ^ 16)) (c * 2 ^ 8)) c

unfoldable pub memset : Mem → ℕ → ℕ → ℕ → Mem
unfolding rep_stosb rep_stosl stosl spread write
memset m v c n =
    if n == 0
    then m
    else if (v % 4 == 0) && (n % 4 == 0)
    then rep_stosl (n / 4) m v (spread (c % 2 ^ 8))
    else rep_stosb n m v c

-- one `movsb` or `movsl`: `k` bytes are read, then written
movs : ℕ → Mem → ℕ → ℕ → Mem
movs k m d s a = if within d k a then m (s + (a - d)) else m a

-- `cld; rep movs`: upwards
rep_movs_up : ℕ → ℕ → Mem → ℕ → ℕ → Mem
rep_movs_up k zero m d s = m
rep_movs_up k (suc n) m d s = rep_movs_up k n (movs k m d s) (d + k) (s + k)

-- `std; rep movs`: downwards
rep_movs_down : ℕ → ℕ → Mem → ℕ → ℕ → Mem
rep_movs_down k zero m d s = m
rep_movs_down k (suc n) m d s = rep_movs_down k n (movs k m d s) (d - k) (s - k)

abbrev aligned : ℕ → ℕ → ℕ → Bool
aligned s d n = (s % 4 == 0) && ((d % 4 == 0) && (n % 4 == 0))

unfoldable pub memmove : Mem → ℕ → ℕ → ℕ → Mem
unfolding rep_movs_up rep_movs_down movs
memmove m dst src n =
    if ltb src dst && ltb dst (src + n)
    then (if aligned (src + n) (dst + n) n
        then rep_movs_down 4 (n / 4) m (dst + n - 4) (src + n - 4)
        else rep_movs_down 1 n m (dst + n - 1) (src + n - 1))
    else (if aligned src dst n then rep_movs_up 4 (n / 4) m dst src else rep_movs_up 1 n m dst src)

unfoldable pub memcpy : Mem → ℕ → ℕ → ℕ → Mem
unfolding memmove
memcpy m dst src n = memmove m dst src n

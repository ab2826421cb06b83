-- ===== src/Str/Block/Plain.antt =====
-- memset and memmove of lib/string.c as a build with `#define ASM 0` has them: loops over bytes, in
-- the place of the string instructions.
use vukernelprogramming.Prelude.{
  ℕ, zero, suc, ◌+◌, ◌-◌, ◌%◌, ◌^◌, ◌≤◌, ◌<◌, ◌≡◌, ◌⊎◌, ◌&&◌, arith, ltb, leb, false, if◌then◌else◌,
  ◌∙◌, refl,
}
use vukernelprogramming.Memory.{Mem, write, within}
use vukernelprogramming.Str.Block.{memset, memmove}
use vukernelprogramming.Str.Block.Fill.{memset-fill}
use vukernelprogramming.Str.Block.Move.{memmove-copy}

-- while (--m >= 0) *p++ = c, with `m` rounds left
fill_bytes : ℕ → Mem → ℕ → ℕ → Mem
unfolding write
fill_bytes zero mem p c = mem
fill_bytes (suc m) mem p c = fill_bytes m (write mem p (c % 2 ^ 8)) (p + 1) c

-- `m` is an int: for an n above 2^31 it is negative, and no byte is written; at 2^31 the first
-- decrement wraps around, to 2^31 rounds
unfoldable pub plain_memset : Mem → ℕ → ℕ → ℕ → Mem
unfolding fill_bytes
plain_memset mem v c n = if leb n (2 ^ 31) then fill_bytes n mem v c else mem

-- while (n-- > 0) *--d = *--s
copy_down : ℕ → Mem → ℕ → ℕ → Mem
unfolding write
copy_down zero m d s = m
copy_down (suc n) m d s = copy_down n (write m (d - 1) (m (s - 1))) (d - 1) (s - 1)

-- while (n-- > 0) *d++ = *s++
copy_up : ℕ → Mem → ℕ → ℕ → Mem
unfolding write
copy_up zero m d s = m
copy_up (suc n) m d s = copy_up n (write m d (m s)) (d + 1) (s + 1)

unfoldable pub plain_memmove : Mem → ℕ → ℕ → ℕ → Mem
unfolding copy_down copy_up
plain_memmove m dst src n =
    if ltb src dst && ltb dst (src + n)
    then copy_down n m (dst + n) (src + n)
    else copy_up n m dst src

fill_bytes-fill :
    (n : ℕ) (m : Mem) (p c a : ℕ) → fill_bytes n m p c a ≡ (if within p n a then c % 2 ^ 8 else m a)
unfolding fill_bytes write
fill_bytes-fill zero m p c a = ground arith
fill_bytes-fill (suc n) m p c a =
    ground (arith, fill_bytes-fill n (write m p (c % 2 ^ 8)) (p + 1) c a)

copy_up-copy :
    (n : ℕ) (m : Mem) (d s a : ℕ)
    → (d ≤ s) ⊎ (s + n ≤ d)
    → copy_up n m d s a ≡ (if within d n a then m (s + (a - d)) else m a)
unfolding copy_up write
copy_up-copy zero m d s a h = ground arith
copy_up-copy (suc n) m d s a h = ground (arith, copy_up-copy n (write m d (m s)) (d + 1) (s + 1) a)

-- the last byte of a block, then the `n` bytes below it
last_byte :
    (n : ℕ) (m : Mem) (d s x y a : ℕ)
    → s ≤ d
    → x ≡ d + n
    → y ≡ s + n
    → (if within d n a then write m x (m y) (s + (a - d)) else write m x (m y) a)
      ≡ (if within d (suc n) a then m (s + (a - d)) else m a)
unfolding write
last_byte n m d s x y a h e k = rw (e, k) (ground arith)

copy_down-copy :
    (n : ℕ) (m : Mem) (d s x y a : ℕ)
    → s ≤ d
    → x ≡ d + n
    → y ≡ s + n
    → copy_down n m x y a ≡ (if within d n a then m (s + (a - d)) else m a)
unfolding copy_down write
copy_down-copy zero m d s x y a h e k = ground arith
copy_down-copy (suc n) m d s x y a h e k =
    let ih =
      copy_down-copy n (write m (x - 1) (m (y - 1))) d s (x - 1) (y - 1) a h (omega arith)
        (omega arith) in
    ih ∙ last_byte n m d s (x - 1) (y - 1) a h (omega arith) (omega arith)

-- In either build the result is the same: memmove for every pair of blocks, overlapping or not, and
-- memset for a size of at most 2^31. For a larger size, the loop of memset writes nothing.
pub plain-asm :
    (m : Mem) (dst src n c a : ℕ)
    → (plain_memmove m dst src n a ≡ memmove m dst src n a)
      × (n ≤ 2 ^ 31 → plain_memset m dst c n a ≡ memset m dst c n a)
      × (2 ^ 31 < n → plain_memset m dst c n ≡ m)
unfolding plain_memmove plain_memset
plain-asm m dst src n c a = (
  ground (
    arith,
    memmove-copy m dst src n a,
    copy_up-copy n m dst src a,
    copy_down-copy n m dst src (dst + n) (src + n) a,
  ),
  λ small. ground (arith, memset-fill m dst c n a, fill_bytes-fill n m dst c a),
  λ large. let e : leb n (2 ^ 31) ≡ false = ground arith in rw e refl,
)

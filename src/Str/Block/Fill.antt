-- ===== src/Str/Block/Fill.antt =====
-- memset fills the block, whichever instruction it uses.
use vukernelprogramming.Prelude.{
  ℕ, zero, suc, ◌+◌, ◌*◌, ◌/◌, ◌%◌, ◌^◌, ◌<◌, ◌≡◌, refl, true, arith, ◌==◌, if◌then◌else◌, passes,
  passes-at, ==_iff,
}
use vukernelprogramming.Memory.{Mem, write, within}
use vukernelprogramming.Str.Block.{rep_stosb, stosl, rep_stosl, spread, memset}

rep_stosb-fill :
    (n : ℕ) (m : Mem) (d w a : ℕ) → rep_stosb n m d w a ≡ (if within d n a then w % 2 ^ 8 else m a)
unfolding rep_stosb write
rep_stosb-fill zero m d w a = ground arith
rep_stosb-fill (suc n) m d w a =
    ground (arith, rep_stosb-fill n (write m d (w % 2 ^ 8)) (d + 1) w a)

abbrev Repeats : ℕ → ℕ → Type 0
Repeats w c =
    (w % 2 ^ 8 ≡ c) × (w / 2 ^ 8 % 2 ^ 8 ≡ c) × (w / 2 ^ 16 % 2 ^ 8 ≡ c) × (w / 2 ^ 24 % 2 ^ 8 ≡ c)

stosl-fill :
    (m : Mem) (d w c a : ℕ) → Repeats w c → stosl m d w a ≡ (if within d 4 a then c else m a)
unfolding stosl write
stosl-fill m d w c a h = ground arith

rep_stosl-fill :
    (n : ℕ) (m : Mem) (d w c a : ℕ)
    → Repeats w c
    → rep_stosl n m d w a ≡ (if within d (n * 4) a then c else m a)
unfolding rep_stosl
rep_stosl-fill zero m d w c a h = ground arith
rep_stosl-fill (suc n) m d w c a h =
    ground (arith, rep_stosl-fill n (stosl m d w) (d + 4) w c a h, stosl-fill m d w c a h)

spread_table : passes (λ c. spread c == c * 0x1010101) 256 ≡ true
unfolding passes spread
spread_table = refl

spread-Repeats : (c : ℕ) → c < 256 → Repeats (spread c) c
spread-Repeats c h =
    let e : spread c ≡ c * 0x1010101 = (==_iff _ _).0 (passes-at _ 256 c h spread_table) in
    rw e (omega arith)

-- memset stores the low byte of `c` at each address of [v, v + n), and leaves all other addresses
-- alone, by either instruction.
pub memset-fill :
    (m : Mem) (v c n a : ℕ) → memset m v c n a ≡ (if within v n a then c % 2 ^ 8 else m a)
unfolding memset
memset-fill m v c n a = ground (
  arith,
  rep_stosb-fill n m v c a,
  rep_stosl-fill (n / 4) m v (spread (c % 2 ^ 8)) (c % 2 ^ 8) a,
  spread-Repeats (c % 2 ^ 8),
)

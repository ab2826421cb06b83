-- ===== src/Prelude/Int.antt =====
-- The C int as an integer over the native numbers: `negsuc n` is -(n + 1).
use Prim.Native.Nat.{ℕ, zero, suc, ◌-◌}
use vukernelprogramming.Prelude.Tests.{leb, if◌then◌else◌}

pub data ℤ : Type 0 where
  pos : ℕ → ℤ
  negsuc : ℕ → ℤ

-- a - b, as an integer
abbrev pub sub_ℕ : ℕ → ℕ → ℤ
sub_ℕ a b = if leb b a then pos (a - b) else negsuc (b - a - 1)

-- -n
abbrev pub neg_ℕ : ℕ → ℤ
neg_ℕ zero = pos 0
neg_ℕ (suc n) = negsuc n

-- n - 1
abbrev pub pred_ℕ : ℕ → ℤ
pred_ℕ zero = negsuc 0
pred_ℕ (suc n) = pos n

-- r + 1, for an r of -1 or more
abbrev pub above : ℤ → ℕ
above (pos n) = suc n
above (negsuc n) = 0

abbrev pub pos_part : ℤ → ℕ
pos_part (pos n) = n
pos_part (negsuc n) = 0

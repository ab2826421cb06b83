-- ===== src/Kdebug.antt =====
-- kern/kdebug.c and inc/stab.h: the search of the debugging symbols of the kernel.
pub mod Search
pub mod Eip
use Prim.Native.Nat.{ℕ}

-- struct stab
pub record Stab : Type 0 where
  pub n_strx : ℕ
  pub n_type : ℕ
  pub n_other : ℕ
  pub n_desc : ℕ
  pub n_value : ℕ

-- stabs[i]
abbrev pub Stabs : Type 0
Stabs = ℕ → Stab

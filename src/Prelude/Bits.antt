-- ===== src/Prelude/Bits.antt =====
-- A test of a table at each index, by evaluation.
use Prim.Native.Nat.{ℕ, zero, suc, ◌<◌}
use vukernelprogramming.Prelude.Tests.{if◌then◌else◌}
use mathlib.Core.Path.{◌≡◌}
use mathlib.Core.Bool.{Bool, true, false}
use native.Mathlib.Omega.{arith}

-- `ok` holds at every number under the bound
unfoldable pub passes : (ℕ → Bool) → ℕ → Bool
passes ok zero = true
passes ok (suc k) = if ok k then passes ok k else false

pub passes-at : (ok : ℕ → Bool) (k v : ℕ) → v < k → passes ok k ≡ true → ok v ≡ true
unfolding passes
passes-at ok zero v low all = absurd (omega arith)
passes-at ok (suc k) v low all = ground (arith, passes-at ok k v)

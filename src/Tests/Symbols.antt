-- ===== src/Tests/Symbols.antt =====
-- kern/kdebug.c on the table in the comment of stab_binsearch.
use vukernelprogramming.Prelude.{
  ℕ, ◌+◌, ◌*◌, ◌≡◌, refl, some, List, [], ◌∷◌, arith, get_or, if◌then◌else◌, ◌==◌,
}
use vukernelprogramming.Prelude.Int.{pos, above}
use vukernelprogramming.Kdebug.{Stab, Stabs}
use vukernelprogramming.Kdebug.Search.{Region, stab_binsearch}
use vukernelprogramming.Kdebug.Search.Outcome.{Outcome, stab_binsearch-Outcome}
use vukernelprogramming.Kdebug.Search.Sorted.{
  Brackets, stab_binsearch-Brackets, stab_binsearch_before,
}

abbrev so_type : ℕ
so_type = 0x64

abbrev stab : ℕ → ℕ → Stab
stab t v = record { n_strx = 0; n_type = t; n_other = 0; n_desc = 0; n_value = v }

-- the stabs of the comment at a seventh of its indices: types 0x64 with other stabs between
abbrev row : List Stab
row =
    stab 0x64 0xf0100000
    ∷ stab 0x64 0xf0100040
    ∷ stab 0x24 0xf0100040
    ∷ stab 0x64 0xf0100176
    ∷ stab 0x64 0xf0100178
    ∷ stab 0x24 0xf0100180
    ∷ stab 0x44 0x4
    ∷ stab 0x64 0xf0100652
    ∷ stab 0x64 0xf0100654
    ∷ []

abbrev table : Stabs
table i = get_or row i (stab 0 0)

-- left is the stab at 0xf0100178, and right stands before the stab at 0xf0100652
search_run :
    stab_binsearch table 0x64 12 0 (pos 8) 0xf0100184
    ≡ some (record { left = pos 4; right = pos 6 })
unfolding stab_binsearch
search_run = refl

-- a stab one byte behind the one that matches the address is returned in its place
skip_run :
    stab_binsearch (λ i. stab 0x44 (10 + i)) 0x44 12 0 (pos 1) 10
    ≡ some (record { left = pos 1; right = pos 1 })
unfolding stab_binsearch
skip_run = refl

-- a table with a stab of the type at each index, sixteen bytes apart
abbrev ladder : Stabs
ladder i = stab 0x44 (16 * i)

stab_binsearch-Outcome_example :
    (res : Region) × (stab_binsearch ladder 0x44 12 0 (pos 8) 40 ≡ some res)
    × Outcome ladder 0x44 0 (pos 8) 40 res
stab_binsearch-Outcome_example =
    stab_binsearch-Outcome ladder 0x44 0 (pos 8) 40 12 (omega arith) (λ i lo hi t e. omega arith)
      (omega arith) (omega arith)

stab_binsearch-Brackets_example :
    (res : Region) × (stab_binsearch ladder 0x44 12 0 (pos 8) 40 ≡ some res)
    × Brackets ladder 0x44 0 (pos 8) 40 res
stab_binsearch-Brackets_example =
    stab_binsearch-Brackets ladder 0x44 0 (pos 8) 40 12 (omega arith) (λ i lo hi t e. omega arith)
      (omega arith) (λ i j lo le hi t u. omega arith) 2 (omega arith) (omega arith)
      (refl, omega arith)

-- the first stab of the type is at 1
abbrev late : Stabs
late i = if i == 0 then stab 0x24 0 else stab 0x44 (16 * i + 100)

stab_binsearch_before_example :
    (res : Region) × (stab_binsearch late 0x44 12 0 (pos 8) 40 ≡ some res)
    × (res.left ≡ pos 0)
    × (above res.right ≡ 1)
stab_binsearch_before_example =
    stab_binsearch_before late 0x44 0 (pos 8) 40 12 (omega arith) (λ i lo hi t e. ground arith)
      (omega arith) 1 (omega arith) (omega arith) refl (λ i lo hi t. ground arith)
      (λ i lo hi t. ground arith)

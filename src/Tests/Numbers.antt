-- ===== src/Tests/Numbers.antt =====
-- strtol of lib/string.c on a small memory.
use vukernelprogramming.Prelude.{◌-◌, ◌%◌, ◌^◌, ◌≡◌, refl, inl, inr, some, [], ◌∷◌, arith, get_or}
use vukernelprogramming.Memory.{Mem}
use vukernelprogramming.Str.Number.{strtol_digits, strtol}
use vukernelprogramming.Str.Number.Digits.{NoDigit, strtol_digits-value}
use vukernelprogramming.Printf.Number.Digits.{value_from}

-- " -0x2a;"
abbrev number : Mem
number a = get_or (b' ' ∷ b'-' ∷ b'0' ∷ b'x' ∷ b'2' ∷ b'a' ∷ b';' ∷ []) a 0

strtol_run : strtol 5 number 0 0 ≡ some (2 ^ 32 - 42, 6)
unfolding strtol
strtol_run = refl

-- "2aEF8" in base 15, with letters of both cases: 'F' is too large
abbrev mixed_case : Mem
mixed_case a = get_or (b'2' ∷ b'a' ∷ b'E' ∷ b'F' ∷ b'8' ∷ []) a 0

large_digit : NoDigit 15 b'F'
large_digit d l (inl (k, e)) = absurd (omega arith)
large_digit d l (inr (k, h, inl e)) = absurd (omega arith)
large_digit d l (inr (k, h, inr e)) = absurd (omega arith)

strtol_digits-value_example :
    strtol_digits 4 mixed_case 0 15 0 ≡ some (value_from 15 0 (2 ∷ 10 ∷ 14 ∷ []) % 2 ^ 32, 3)
strtol_digits-value_example =
    strtol_digits-value (2 ∷ 10 ∷ 14 ∷ []) 4 mixed_case 0 15 0
      (
        inl (omega arith, refl),
        omega arith,
        (
          inr (omega arith, omega arith, inl refl),
          omega arith,
          (inr (omega arith, omega arith, inr refl), omega arith, tt),
        ),
      )
      large_digit (omega arith) (omega arith)

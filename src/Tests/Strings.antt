-- ===== src/Tests/Strings.antt =====
-- lib/string.c on a small memory.
use vukernelprogramming.Prelude.{
  ℕ, ◌-◌, ◌<◌, ◌≤◌, ◌^◌, ◌≡◌, some, List, [], ◌∷◌, arith, get_or, inr, if◌then◌else◌, ltb,
}
use vukernelprogramming.Prelude.Int.{pos}
use vukernelprogramming.Memory.{Mem, CString}
use vukernelprogramming.Str.Scan.{strnlen, strnlen-length}
use vukernelprogramming.Str.Copy.{strlcpy}
use vukernelprogramming.Str.Copy.Bounded.{strlcpy-truncate}
use vukernelprogramming.Str.Compare.{strcmp, strcmp-compare_chars}
use vukernelprogramming.Str.Block.{memset, memmove}
use vukernelprogramming.Str.Block.Fill.{memset-fill}
use vukernelprogramming.Str.Block.Move.{memmove-copy}
use vukernelprogramming.Str.Block.Plain.{plain_memset, plain_memmove, plain-asm}

-- "help" at 0, "hello" at 8, and 255 everywhere behind
abbrev cells : List ℕ
cells = b'h' ∷ b'e' ∷ b'l' ∷ b'p' ∷ 0 ∷ 255 ∷ 255 ∷ 255 ∷ b'h' ∷ b'e' ∷ b'l' ∷ b'l' ∷ b'o' ∷ 0 ∷ []

abbrev memory : Mem
memory a = get_or cells a 255

-- "help" at 0 and "hello" at 20
abbrev far : Mem
far a = if ltb a 20 then memory a else memory (a - 12)

abbrev help : List ℕ
help = b'h' ∷ b'e' ∷ b'l' ∷ b'p' ∷ []

abbrev hello : List ℕ
hello = b'h' ∷ b'e' ∷ b'l' ∷ b'l' ∷ b'o' ∷ []

help_at : CString memory 0 help
help_at = ground arith

hello_at : CString memory 8 hello
hello_at = ground arith

strnlen-length_example : strnlen memory 8 3 ≡ 3
strnlen-length_example = strnlen-length memory 8 3 hello hello_at

strlcpy-truncate_example : ((strlcpy memory 20 8 4).1 ≡ 3) × ((strlcpy memory 20 8 4).0 23 ≡ 0)
strlcpy-truncate_example =
    strlcpy-truncate memory 20 8 4 hello 23 hello_at (omega arith) (inr (omega arith))

strcmp-compare_chars_example : strcmp 10 memory 0 8 ≡ some (pos 4)
strcmp-compare_chars_example =
    strcmp-compare_chars 10 memory 0 8 help hello help_at hello_at (omega arith)

memset-fill_example : memset memory 8 0x120 4 10 ≡ 0x20
memset-fill_example = memset-fill memory 8 0x120 4 10

memmove-copy_example : memmove memory 4 0 8 7 ≡ b'p'
memmove-copy_example = memmove-copy memory 4 0 8 7

-- overlapping blocks, and a fill of three bytes, in the two builds
plain-asm_example :
    (plain_memmove memory 10 8 5 12 ≡ memmove memory 10 8 5 12)
    × (5 ≤ 2 ^ 31 → plain_memset memory 10 0x141 5 12 ≡ memset memory 10 0x141 5 12)
    × (2 ^ 31 < 5 → plain_memset memory 10 0x141 5 ≡ memory)
plain-asm_example = plain-asm memory 10 8 5 0x141 12

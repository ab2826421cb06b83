-- ===== src/Tests/Printing.antt =====
-- lib/printfmt.c and kern/printf.c on small formats.
use vukernelprogramming.Prelude.{
  ℕ, ltb, ◌++◌, ◌+◌, ◌-◌, ◌^◌, ◌%◌, ◌≡◌, refl, some, List, [], ◌∷◌, arith, get_or, if◌then◌else◌,
  ◌==◌,
}
use vukernelprogramming.Prelude.Int.{pos, negsuc}
use vukernelprogramming.Memory.{Mem, within}
use vukernelprogramming.Printf.Number.{printnum}
use vukernelprogramming.Printf.Number.Digits.{puts, Prints, printnum-Prints}
use vukernelprogramming.Printf.Format.{text, string_arg, vprintfmt, printfmt}
use vukernelprogramming.Printf.Format.Plain.{Text}
use vukernelprogramming.Printf.Format.Items.{
  Item, itself, percent_sign, converted, zeros, spaces, dashes, as_hex, as_string, as_signed,
  format_code, ShowsAll, CanPrint, IsString,
}
use vukernelprogramming.Printf.Format.Items.Prints.{vprintfmt-ShowsAll}
use vukernelprogramming.Printf.Conversions.{char_of, getint, process_precision}
use vukernelprogramming.Printf.Buffer.{vsnprintf, snprintf, vcprintf, cprintf}
use vukernelprogramming.Printf.Buffer.Bounds.{fits, vsnprintf-plain, vcprintf-plain}

-- the characters printed so far, the last one first
abbrev log : ℕ → List ℕ → List ℕ
log c cs = c ∷ cs

-- "hi" at 0, "n=%u." at 8
abbrev formats : Mem
formats a =
    get_or (b'h' ∷ b'i' ∷ 0 ∷ 0 ∷ 0 ∷ 0 ∷ 0 ∷ 0 ∷ b'n' ∷ b'=' ∷ b'%' ∷ b'u' ∷ b'.' ∷ 0 ∷ []) a 0

abbrev hi : List ℕ
hi = b'h' ∷ b'i' ∷ []

hi_at : Text formats 0 hi
hi_at = ground arith

printnum_run : printnum log 64 45 16 4 b'0' [] ≡ some (b'd' ∷ b'2' ∷ b'0' ∷ b'0' ∷ [])
unfolding printnum
printnum_run = refl

printnum-Prints_example : Prints log 45 16 4 b'0' [] (printnum log 64 45 16 4 b'0' [])
printnum-Prints_example = printnum-Prints log 63 45 16 4 b'0' [] (omega arith) (omega arith)

-- "pc=%08x %-3s%d%%" at 40, and the string "ok" at 60
abbrev items : List Item
items =
    itself b'p'
    ∷ itself b'c'
    ∷ itself b'='
    ∷ converted zeros 8 as_hex
    ∷ itself b' '
    ∷ converted dashes 3 as_string
    ∷ converted spaces 0 as_signed
    ∷ percent_sign
    ∷ []

abbrev traced : Mem
traced a =
    if ltb a 60
    then get_or (format_code items ++ (0 ∷ [])) (a - 40) 0
    else get_or (b'o' ∷ b'k' ∷ 0 ∷ []) (a - 60) 0

abbrev trace_arguments : List ℕ
trace_arguments = 0xf0100040 ∷ 60 ∷ (2 ^ 32 - 5) ∷ []

ok_at : IsString traced (string_arg 60) 0 (b'o' ∷ b'k' ∷ [])
unfolding char_of string_arg
ok_at = (refl, omega arith, (refl, omega arith, refl))

can_trace : CanPrint traced 3 items trace_arguments
can_trace = (
  omega arith,
  omega arith,
  (
    omega arith,
    omega arith,
    (
      omega arith,
      omega arith,
      (
        omega arith,
        omega arith,
        (
          omega arith,
          omega arith,
          (omega arith, (b'o' ∷ b'k' ∷ [], ok_at, omega arith), (omega arith, omega arith, tt)),
        ),
      ),
    ),
  ),
)

vprintfmt-ShowsAll_example :
    (cs : List ℕ) × ShowsAll traced items trace_arguments cs
    × (vprintfmt log traced 20 text 40 trace_arguments [] ≡ some (puts log cs []))
vprintfmt-ShowsAll_example =
    vprintfmt-ShowsAll log traced items 3 20 40 trace_arguments [] (ground arith) can_trace
      (omega arith)

vsnprintf-plain_example :
    (m' : Mem) × (vsnprintf 6 formats 32 2 0 [] ≡ some (pos 2, m'))
    × (m' 33 ≡ (
        if within 32 (fits 2 1) 33
        then get_or hi 1 0 % 256
        else if 33 == 32 + fits 2 1
        then 0
        else formats 33))
vsnprintf-plain_example =
    vsnprintf-plain hi 3 formats 32 2 0 [] 33 (omega arith) (omega arith) hi_at refl

vcprintf-plain_example : vcprintf log 6 formats 0 [] [] ≡ some (0, b'i' ∷ b'h' ∷ [])
vcprintf-plain_example = vcprintf-plain log hi 3 formats 0 [] [] hi_at refl

-- "%4d" at 20
abbrev conversions : Mem
conversions a = if a == 20 then b'%' else if a == 21 then b'4' else if a == 22 then b'd' else 0

-- the sign stands before the padding
printfmt_run :
    printfmt log conversions 70 20 ((2 ^ 32 - 7) ∷ []) []
    ≡ some (b'7' ∷ b' ' ∷ b' ' ∷ b' ' ∷ b'-' ∷ [])
unfolding printfmt vprintfmt getint process_precision printnum
printfmt_run = refl

-- cprintf returns 0, and prints
cprintf_run : cprintf log 70 conversions 20 (42 ∷ []) [] ≡ some (0, b'2' ∷ b'4' ∷ b' ' ∷ b' ' ∷ [])
unfolding cprintf vcprintf vprintfmt getint process_precision printnum
cprintf_run = refl

-- a NULL buffer, and one without room, give -E_INVAL and write nothing
snprintf_run :
    (snprintf 70 conversions 0 8 20 (42 ∷ []) ≡ some (negsuc 2, conversions))
    × (snprintf 70 conversions 100 0 20 (42 ∷ []) ≡ some (negsuc 2, conversions))
unfolding snprintf vsnprintf
snprintf_run = (refl, refl)

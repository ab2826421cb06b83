-- ===== src/Printf/Number.antt =====
-- printnum of lib/printfmt.c. `putch` is the function that it is given, over any state. A width of
-- 0 or less asks for no padding, so it is a natural number. `none` says that the fuel ran out.
pub mod Digits
use vukernelprogramming.Prelude.{
  ℕ, zero, suc, ◌+◌, ◌-◌, ◌/◌, ◌%◌, Option, none, some, List, [], ◌∷◌, get_or, leb, if◌then◌else◌,
}
use mathlib.Core.Option

-- "0123456789abcdef"
abbrev pub digit_chars : List ℕ
digit_chars =
    b'0' ∷ b'1' ∷ b'2' ∷ b'3' ∷ b'4' ∷ b'5' ∷ b'6' ∷ b'7' ∷ b'8' ∷ b'9' ∷ b'a' ∷ b'b' ∷ b'c' ∷ b'd'
    ∷ b'e' ∷ b'f' ∷ []

-- the source reads behind the string for a digit of 17 or more, which its bases do not give
abbrev pub digit : ℕ → ℕ
digit d = get_or digit_chars d 0

module _ {S : Type 0} (putch : ℕ → S → S) where
  -- while (--width > 0) putch(padc, putdat); with `n` characters left
  unfoldable pub pad : ℕ → ℕ → S → S
  pad zero padc s = s
  pad (suc n) padc s = pad n padc (putch padc s)

  unfoldable pub printnum : ℕ → ℕ → ℕ → ℕ → ℕ → S → Option S
  unfolding pad
  printnum zero num base width padc s = none
  printnum (suc f) num base width padc s =
      let rest = printnum f (num / base) base (width - 1) padc s in
      if leb base num
      then Option.map (putch (digit (num % base))) rest
      else some (putch (digit (num % base)) (pad (width - 1) padc s))

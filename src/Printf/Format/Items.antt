-- ===== src/Printf/Format/Items.antt =====
-- What vprintfmt of lib/printfmt.c promises: a format as a list of items, the characters that it is
-- written with, and the output of each item. An item is a character, `%%`, or a conversion of one
-- word with a padding flag and a width of one digit; the long flags, the precision and the flags
-- `#` and `*` are not items.
pub mod Strings
pub mod Arguments
pub mod Prints
use vukernelprogramming.Prelude.{
  ℕ, zero, suc, ◌+◌, ◌-◌, ◌^◌, ◌≤◌, ◌<◌, ◌≡◌, ◌≢◌, none, some, List, [], ◌∷◌, ◌++◌, map, length,
  replicate, false,
}
use vukernelprogramming.Prelude.Int.{ℤ, pos, negsuc}
use vukernelprogramming.Memory.{Mem}
use vukernelprogramming.Printf.Number.{digit}
use vukernelprogramming.Printf.Number.Digits.{IsNumeral}
use vukernelprogramming.Printf.Conversions.{
  Flags, Source, signed_word, sign_extend, char_of, error_string, codes,
}
use vukernelprogramming.Printf.Format.{string_arg}

-- no flag, the flag `0`, the flag `-`
pub data Padding : Type 0 where
  spaces zeros dashes : Padding

pub data Kind : Type 0 where
  as_char as_error as_string as_signed as_unsigned as_octal as_pointer as_hex : Kind

-- a width of 0 is not written
pub data Item : Type 0 where
  itself : ℕ → Item
  percent_sign : Item
  converted : Padding → ℕ → Kind → Item

abbrev pub letter : Kind → ℕ
letter as_char = b'c'
letter as_error = b'e'
letter as_string = b's'
letter as_signed = b'd'
letter as_unsigned = b'u'
letter as_octal = b'o'
letter as_pointer = b'p'
letter as_hex = b'x'

abbrev pub padding_code : Padding → List ℕ
padding_code spaces = []
padding_code zeros = b'0' ∷ []
padding_code dashes = b'-' ∷ []

abbrev pub width_code : ℕ → List ℕ
width_code zero = []
width_code (suc n) = (b'0' + suc n) ∷ []

abbrev pub item_code : Item → List ℕ
item_code (itself c) = c ∷ []
item_code percent_sign = b'%' ∷ b'%' ∷ []
item_code (converted p w k) = b'%' ∷ (padding_code p ++ (width_code w ++ (letter k ∷ [])))

abbrev pub format_code : List Item → List ℕ
format_code [] = []
format_code (i ∷ is) = item_code i ++ format_code is

-- the characters `cs` stand at `p`
abbrev pub Stands : Mem → ℕ → List ℕ → Type 0
Stands m p [] = Unit {0}
Stands m p (c ∷ cs) = (m p ≡ c) × Stands m (p + 1) cs

-- `cs` are the characters of a string from `i` to its NUL
abbrev pub IsString : Mem → Source → ℕ → List ℕ → Type 0
IsString m src i [] = char_of m src i ≡ 0
IsString m src i (c ∷ cs) = (char_of m src i ≡ c) × (c ≢ 0) × IsString m src (i + 1) cs

abbrev pub pad_char : Padding → ℕ
pad_char spaces = b' '
pad_char zeros = b'0'
pad_char dashes = b'-'

-- padded on the left to the width
abbrev pub padded : Padding → ℕ → List ℕ → List ℕ
padded p w cs = replicate (w - length cs) (pad_char p) ++ cs

-- a string with the flag `-` is padded on the right
abbrev pub aligned : Padding → ℕ → List ℕ → List ℕ
aligned spaces w cs = padded spaces w cs
aligned zeros w cs = padded zeros w cs
aligned dashes w cs = cs ++ replicate (w - length cs) b' '

abbrev pub magnitude : ℤ → ℕ
magnitude (pos n) = n
magnitude (negsuc n) = suc n

-- the output of a conversion of the word `a`
pub data Shows (m : Mem) (p : Padding) (w a : ℕ) : Kind → List ℕ → Type 0 where
  shows_char : Shows m p w a as_char (a ∷ [])
  shows_name :
      (cs : List ℕ) → error_string (magnitude (signed_word a)) ≡ some cs → Shows m p w a as_error cs
  shows_error :
      (ds : List ℕ)
      → error_string (magnitude (signed_word a)) ≡ none
      → IsNumeral 10 (magnitude (signed_word a)) ds
      → Shows m p w a as_error (codes "error " ++ map digit ds)
  shows_string :
      (cs : List ℕ)
      → IsString m (string_arg a) 0 cs
      → Shows m p w a as_string (aligned p w (map sign_extend cs))
  shows_positive :
      (ds : List ℕ)
      → a < 2 ^ 31
      → IsNumeral 10 a ds
      → Shows m p w a as_signed (padded p w (map digit ds))
  shows_negative :
      (ds : List ℕ)
      → 2 ^ 31 ≤ a
      → IsNumeral 10 (2 ^ 32 - a) ds
      → Shows m p w a as_signed (b'-' ∷ padded p w (map digit ds))
  shows_unsigned :
      (ds : List ℕ) → IsNumeral 10 a ds → Shows m p w a as_unsigned (padded p w (map digit ds))
  shows_octal :
      (ds : List ℕ) → IsNumeral 8 a ds → Shows m p w a as_octal (padded p w (map digit ds))
  shows_pointer :
      (ds : List ℕ)
      → IsNumeral 16 a ds
      → Shows m p w a as_pointer (b'0' ∷ b'x' ∷ padded p w (map digit ds))
  shows_hex : (ds : List ℕ) → IsNumeral 16 a ds → Shows m p w a as_hex (padded p w (map digit ds))

-- the output of the items, which take their arguments in order
pub data ShowsAll (m : Mem) : List Item → List ℕ → List ℕ → Type 0 where
  shows_none : (ap : List ℕ) → ShowsAll m [] ap []
  shows_itself :
      (c : ℕ) (is : List Item) (ap cs : List ℕ)
      → ShowsAll m is ap cs
      → ShowsAll m (itself c ∷ is) ap (c ∷ cs)
  shows_percent :
      (is : List Item) (ap cs : List ℕ)
      → ShowsAll m is ap cs
      → ShowsAll m (percent_sign ∷ is) ap (b'%' ∷ cs)
  shows_converted :
      (p : Padding) (w a : ℕ) (k : Kind) (is : List Item) (ap cs ds : List ℕ)
      → Shows m p w a k cs
      → ShowsAll m is ap ds
      → ShowsAll m (converted p w k ∷ is) (a ∷ ap) (cs ++ ds)

-- an argument is a word; that of `%s` leads to a string of fewer than `n` characters
abbrev pub IsArgument : Mem → ℕ → Kind → ℕ → Type 0
IsArgument m n as_string a = (cs : List ℕ) × IsString m (string_arg a) 0 cs × (length cs < n)
IsArgument m n as_char a = Unit {0}
IsArgument m n as_error a = a < 2 ^ 32
IsArgument m n as_signed a = a < 2 ^ 32
IsArgument m n as_unsigned a = a < 2 ^ 32
IsArgument m n as_octal a = a < 2 ^ 32
IsArgument m n as_pointer a = a < 2 ^ 32
IsArgument m n as_hex a = a < 2 ^ 32

-- a format that can be written, with an argument for each conversion
abbrev pub CanPrint : Mem → ℕ → List Item → List ℕ → Type 0
CanPrint m n [] ap = Unit {0}
CanPrint m n (itself c ∷ is) ap = (c ≢ 0) × (c ≢ b'%') × CanPrint m n is ap
CanPrint m n (percent_sign ∷ is) ap = CanPrint m n is ap
CanPrint m n (converted p w k ∷ is) [] = ⊥
CanPrint m n (converted p w k ∷ is) (a ∷ ap) = (w ≤ 9) × IsArgument m n k a × CanPrint m n is ap

-- the flags behind the padding and the width
abbrev pub width_of : ℕ → ℤ
width_of zero = negsuc 0
width_of (suc n) = pos (suc n)

abbrev pub flags : Padding → ℕ → Flags
flags p w = record {
  padc = pad_char p;
  width = width_of w;
  precision = negsuc 0;
  lflag = 0;
  altflag = false;
}

-- ===== src/Printf/Conversions.antt =====
-- The conversions of vprintfmt in lib/printfmt.c, and what va_arg takes. The arguments are the 32-bit words that
-- va_arg takes from the stack, two for a long long. `none` says that the fuel ran
-- out, or that an argument is missing.
use Prim.Native.Char.{code}
use Prim.Native.String.{String}
use vukernelprogramming.Prelude.{
  ℕ, zero, suc, ◌+◌, ◌-◌, ◌*◌, ◌^◌, Bool, true, false, ◌&&◌, ◌||◌, not, Option, none, some, List,
  [], ◌∷◌, get_or, leb, ltb, ◌==◌, if◌then◌else◌,
}
use vukernelprogramming.Prelude.Int.{ℤ, pos, negsuc, pos_part}
use vukernelprogramming.Memory.{Mem}

-- what the switch tells apart
pub data Conversion : Type 0 where
  minus zero_flag digit_flag star dot hash long : Conversion
  char_conv error_conv string_conv signed unsigned octal pointer hex percent unknown : Conversion

unfoldable pub classify : ℕ → Conversion
classify ch =
    if ch == b'-'
    then minus
    else if ch == b'0'
    then zero_flag
    else if leb b'1' ch && leb ch b'9'
    then digit_flag
    else if ch == b'*'
    then star
    else if ch == b'.'
    then dot
    else if ch == b'#'
    then hash
    else if ch == b'l'
    then long
    else if ch == b'c'
    then char_conv
    else if ch == b'e'
    then error_conv
    else if ch == b's'
    then string_conv
    else if ch == b'd'
    then signed
    else if ch == b'u'
    then unsigned
    else if ch == b'o'
    then octal
    else if ch == b'p'
    then pointer
    else if ch == b'x'
    then hex
    else if ch == b'%'
    then percent
    else unknown

pub record Flags : Type 0 where
  pub padc : ℕ
  pub width : ℤ
  pub precision : ℤ
  pub lflag : ℕ
  pub altflag : Bool

abbrev pub no_flags : Flags
no_flags = record {
  padc = b' ';
  width = negsuc 0;
  precision = negsuc 0;
  lflag = 0;
  altflag = false;
}

abbrev pub is_negative : ℤ → Bool
is_negative (pos n) = false
is_negative (negsuc n) = true

-- if (width < 0) width = precision, precision = -1;
unfoldable pub process_precision : ℤ → Flags → Flags
process_precision p fl =
    if is_negative fl.width
    then record fl { width = p; precision = negsuc 0 }
    else record fl { precision = p }

-- a word as an int
unfoldable pub signed_word : ℕ → ℤ
signed_word w = if ltb w (2 ^ 31) then pos w else negsuc (2 ^ 32 - 1 - w)

-- a char, which is signed, as the int that putch gets
unfoldable pub sign_extend : ℕ → ℕ
sign_extend c = if ltb c 128 then c else c + (2 ^ 32 - 256)

-- getuint
unfoldable pub getuint : List ℕ → ℕ → Option (ℕ × List ℕ)
getuint [] lflag = none
getuint (w ∷ []) lflag = if leb 2 lflag then none else some (w, [])
getuint (w ∷ v ∷ ap) lflag = if leb 2 lflag then some (w + v * 2 ^ 32, ap) else some (w, v ∷ ap)

-- getint: the sign, and the magnitude that is printed
unfoldable pub getint : List ℕ → ℕ → Option (Bool × ℕ × List ℕ)
unfolding getuint
getint ap lflag = elim (getuint ap lflag) [
  | none ↦ none
  | some (n, ap') ↦
      let half = if leb 2 lflag then 2 ^ 63 else 2 ^ 31 in
      some (if ltb n half then (false, n, ap') else (true, half + half - n, ap'))
]

-- a string argument: in memory, or a literal of the code
pub data Source : Type 0 where
  at : ℕ → Source
  literal : List ℕ → Source

unfoldable pub char_of : Mem → Source → ℕ → ℕ
char_of m (at p) i = m (p + i)
char_of m (literal cs) i = get_or cs i 0

-- strnlen(p, precision), where a negative precision is no bound below 2^31
unfoldable pub bounded_length : ℕ → Mem → Source → ℤ → ℕ → Option ℕ
unfolding char_of
bounded_length zero m p precision i = none
bounded_length (suc f) m p precision i =
    let rest = bounded_length f m p precision (i + 1) in
    if (not (is_negative precision) && leb (pos_part precision) i) || (char_of m p i == 0)
    then some i
    else rest

abbrev pub codes : String → List ℕ
codes String.[] = []
codes (String.◌∷◌ c s) = code c ∷ codes s

-- the names of the errors 1 to 6; the others, below MAXERROR = 8 or not, have none
unfoldable pub error_string : ℕ → Option (List ℕ)
error_string err =
    if err == 1
    then some (codes "unspecified error")
    else if err == 2
    then some (codes "bad environment")
    else if err == 3
    then some (codes "invalid parameter")
    else if err == 4
    then some (codes "out of memory")
    else if err == 5
    then some (codes "out of environments")
    else if err == 6
    then some (codes "segmentation fault")
    else none

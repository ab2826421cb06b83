-- ===== src/Printf/Format.antt =====
-- vprintfmt of lib/printfmt.c. The format stands in memory. `putch` is the function that is given,
-- over any state; it gets an int as its 32-bit pattern. `none` says that the fuel ran out, or that
-- an argument is missing.
pub mod Items
pub mod Plain
use mathlib.Core.Option
use vukernelprogramming.Prelude.{
  ℕ, zero, suc, ◌+◌, ◌-◌, ◌*◌, ◌/◌, ◌%◌, ◌^◌, Bool, true, false, ◌&&◌, ◌||◌, not, Option, none,
  some, List, [], ◌∷◌, ◌++◌, leb, ltb, ◌==◌, if◌then◌else◌,
}
use vukernelprogramming.Prelude.Int.{ℤ, pos, negsuc, sub_ℕ, pos_part, neg_ℕ}
use vukernelprogramming.Memory.{Mem}
use vukernelprogramming.Printf.Number.{pad, printnum}
use vukernelprogramming.Printf.Number.Digits.{puts}
use vukernelprogramming.Printf.Conversions
use vukernelprogramming.Printf.Conversions.{
  classify, Flags, no_flags, is_negative, process_precision, signed_word, sign_extend, getuint,
  getint, Source, at, literal, char_of, bounded_length, error_string, codes,
}

-- between two conversions, or behind a '%' and the flags read so far
pub data Mode : Type 0 where
  text : Mode
  escape : Flags → Mode

-- for (precision = 0; ; ++fmt) …, from the digit `ch`: the number and where the format goes on
read_digits : ℕ → Mem → ℕ → ℕ → ℕ → Option (ℕ × ℕ)
read_digits zero m ch fmt n = none
read_digits (suc f) m ch fmt n =
    let rest = read_digits f m (m fmt) (fmt + 1) (n * 10 + ch - b'0') in
    if leb b'0' (m fmt) && leb (m fmt) b'9' then rest else some (n * 10 + ch - b'0', fmt)

-- for (fmt--; fmt[-1] != '%'; fmt--);
back_to_percent : Mem → ℕ → ℕ
back_to_percent m zero = 0
back_to_percent m (suc p) = let rest = back_to_percent m p in if m p == b'%' then suc p else rest

-- va_arg(ap, char *), or "(null)"
unfoldable pub string_arg : ℕ → Source
string_arg w = if w == 0 then literal (codes "(null)") else at w

module _ {S : Type 0} (putch : ℕ → S → S) (m : Mem) where
  -- the characters of a string from `i`, to its NUL or as the precision allows, and their number
  unfoldable pub string_chars : ℕ → Source → Flags → ℕ → S → Option (ℕ × S)
  string_chars zero p fl i s = none
  string_chars (suc f) p fl i s =
      let ch = char_of m p i in
      let out = if fl.altflag && (ltb ch b' ' || ltb b'~' ch) then b'?' else sign_extend ch in
      let rest = string_chars f p fl (i + 1) (putch out s) in
      if (ch == 0) || (not (is_negative fl.precision) && leb (pos_part fl.precision) i)
      then some (i, s)
      else rest

  -- case 's'
  unfoldable pub string_out : ℕ → Source → Flags → S → Option S
  string_out f p fl s = elim (bounded_length f m p fl.precision 0) [
    | none ↦ none
    | some len ↦
        let left = ltb 0 (pos_part fl.width) && not (fl.padc == b'-') in
        let s' = if left then pad putch (pos_part fl.width - len) fl.padc s else s in
        let width' = if left then 0 else pos_part fl.width in
        elim (string_chars f p fl 0 s') [
          | none ↦ none
          | some (n, s'') ↦ some (pad putch (width' - n) b' ' s'')
        ]
  ]

  -- label `number`
  unfoldable pub number_out : ℕ → ℕ → Flags → S → Option S
  number_out num base fl s = printnum putch 65 num base (pos_part fl.width) fl.padc s

  -- case 'e', whose nested calls of printfmt print "error %d" or "%s"; for the least int the source's
  -- `err = -err` is undefined, and the number of its bits is printed
  unfoldable pub error_out : ℤ → S → Option S
  error_out err s =
      let n : ℕ = elim err [ pos k ↦ k | negsuc k ↦ suc k ] in
      elim (error_string n) [
        | none ↦ number_out n 10 no_flags (puts putch (codes "error ") s)
        | some name ↦ some (puts putch name s)
      ]

  -- a conversion that takes an unsigned number
  unsigned_out : ℕ → List ℕ → Flags → S → Option (S × List ℕ)
  unsigned_out base ap fl s = elim (getuint ap fl.lflag) [
    | none ↦ none
    | some (num, ap') ↦ Option.map (λ s'. (s', ap')) (number_out num base fl s)
  ]

  signed_out : List ℕ → Flags → S → Option (S × List ℕ)
  signed_out ap fl s = elim (getint ap fl.lflag) [
    | none ↦ none
    | some (minus, num, ap') ↦
        Option.map (λ s'. (s', ap')) (number_out num 10 fl (if minus then putch b'-' s else s))
  ]

  -- a conversion that takes one word
  word_out : (ℕ → S → Option S) → List ℕ → S → Option (S × List ℕ)
  word_out out [] s = none
  word_out out (w ∷ ap) s = Option.map (λ s'. (s', ap)) (out w s)

  -- the state of the scan: the format, the arguments, the output
  unfoldable pub vprintfmt : ℕ → Mode → ℕ → List ℕ → S → Option S
  unfolding read_digits back_to_percent string_chars string_out number_out error_out unsigned_out
      signed_out word_out string_arg classify
  vprintfmt zero mode fmt ap s = none
  vprintfmt (suc f) text fmt ap s = elim (m fmt == b'%') [
    | true ↦ vprintfmt f (escape no_flags) (fmt + 1) ap s
    | false ↦ elim (m fmt == 0) [
      | true ↦ some s
      | false ↦ vprintfmt f text (fmt + 1) ap (putch (m fmt) s)
    ]
  ]
  vprintfmt (suc f) (escape fl) fmt ap s =
      let go_on : Flags → Option S = λ fl'. vprintfmt f (escape fl') (fmt + 1) ap s in
      let done : Option (S × List ℕ) → Option S =
        λ o. elim o [ none ↦ none | some (s', ap') ↦ vprintfmt f text (fmt + 1) ap' s' ] in
      elim (classify (m fmt)) [
        | Conversions.minus ↦ go_on (record fl { padc = b'-' })
        | Conversions.zero_flag ↦ go_on (record fl { padc = b'0' })
        | Conversions.digit_flag ↦ elim (read_digits f m (m fmt) (fmt + 1) 0) [
          | none ↦ none
          | some (n, fmt') ↦ vprintfmt f (escape (process_precision (pos n) fl)) fmt' ap s
        ]
        | Conversions.star ↦ elim ap [
          | [] ↦ none
          | w ∷ ap' ↦ vprintfmt f (escape (process_precision (signed_word w) fl)) (fmt + 1) ap' s
        ]
        | Conversions.dot ↦ go_on (if is_negative fl.width then record fl { width = pos 0 } else fl)
        | Conversions.hash ↦ go_on (record fl { altflag = true })
        | Conversions.long ↦ go_on (record fl { lflag = fl.lflag + 1 })
        | Conversions.char_conv ↦ done (word_out (λ w s'. some (putch w s')) ap s)
        | Conversions.error_conv ↦ done (word_out (λ w s'. error_out (signed_word w) s') ap s)
        | Conversions.string_conv ↦ done (word_out (λ w s'. string_out f (string_arg w) fl s') ap s)
        | Conversions.signed ↦ done (signed_out ap fl s)
        | Conversions.unsigned ↦ done (unsigned_out 10 ap fl s)
        | Conversions.octal ↦ done (unsigned_out 8 ap fl s)
        | Conversions.pointer ↦
            done (word_out (λ w s'. number_out w 16 fl s') ap (putch b'x' (putch b'0' s)))
        | Conversions.hex ↦ done (unsigned_out 16 ap fl s)
        | Conversions.percent ↦ vprintfmt f text (fmt + 1) ap (putch b'%' s)
        | Conversions.unknown ↦ vprintfmt f text (back_to_percent m fmt) ap (putch b'%' s)
      ]

  -- printfmt, whose arguments behind the format are `ap`
  unfoldable pub printfmt : ℕ → ℕ → List ℕ → S → Option S
  printfmt f fmt ap s = vprintfmt f text fmt ap s

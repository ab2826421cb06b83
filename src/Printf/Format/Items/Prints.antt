-- ===== src/Printf/Format/Items/Prints.antt =====
-- vprintfmt (lib/printfmt.c) prints what the items of its format show, in their order.
use mathlib.Core.List.{append_assoc}
use vukernelprogramming.Prelude.{
  ℕ, zero, suc, ◌+◌, ◌-◌, ◌*◌, ◌≤◌, ◌<◌, ◌≡◌, refl, false, some, List, [], ◌∷◌, ◌++◌, length, arith,
  leb, ◌&&◌, length-append, ◌∙◌, ap, sym, subst,
}
use vukernelprogramming.Memory.{Mem}
use vukernelprogramming.Printf.Number.Digits.{puts, puts-append}
use vukernelprogramming.Printf.Conversions
use vukernelprogramming.Printf.Conversions.{no_flags, classify, process_precision}
use vukernelprogramming.Printf.Format.{text, escape, read_digits, vprintfmt}
use vukernelprogramming.Printf.Format.Plain.{step_char, step_end, step_percent}
use vukernelprogramming.Printf.Format.Items
use vukernelprogramming.Printf.Format.Items.{
  Padding, Kind, Item, itself, percent_sign, converted, letter, padding_code, width_code, item_code,
  format_code, Stands, ShowsAll, shows_none, shows_itself, shows_percent, shows_converted, CanPrint,
  flags,
}
use vukernelprogramming.Printf.Format.Items.Arguments.{step-Shows}

Stands-append :
    (m : Mem) (p : ℕ) (cs ds : List ℕ)
    → Stands m p (cs ++ ds)
    → Stands m p cs × Stands m (p + length cs) ds
Stands-append m p [] ds h = let e : p + 0 ≡ p = omega arith in (tt, rw e h)
Stands-append m p (c ∷ cs) ds (h, k) =
    let (h', k') = Stands-append m (p + 1) cs ds k in
    let e : p + suc (length cs) ≡ p + 1 + length cs = omega arith in ((h, h'), rw e k')

-- no conversion is written as a digit
letter_large : (k : Kind) → b'9' < letter k
letter_large Items.as_char = omega arith
letter_large Items.as_error = omega arith
letter_large Items.as_string = omega arith
letter_large Items.as_signed = omega arith
letter_large Items.as_unsigned = omega arith
letter_large Items.as_octal = omega arith
letter_large Items.as_pointer = omega arith
letter_large Items.as_hex = omega arith

classify_digit : (c : ℕ) → b'1' ≤ c → c ≤ b'9' → classify c ≡ Conversions.digit_flag
unfolding classify
classify_digit c l h = ground arith

read_digits_one :
    (f : ℕ) (m : Mem) (ch fmt : ℕ)
    → b'9' < m fmt
    → read_digits (suc f) m ch fmt 0 ≡ some (ch - b'0', fmt)
unfolding read_digits
read_digits_one f m ch fmt h =
    let e : leb b'0' (m fmt) && leb (m fmt) b'9' ≡ false = ground arith in
    let e' : 0 * 10 + ch - b'0' ≡ ch - b'0' = omega arith in rw (read_digits, e, e') refl

IsArgument-more :
    (m : Mem) (n f : ℕ) (k : Kind) (a : ℕ)
    → n ≤ f
    → Items.IsArgument m n k a
    → Items.IsArgument m f k a
IsArgument-more m n f Items.as_char a l h = h
IsArgument-more m n f Items.as_error a l h = h
IsArgument-more m n f Items.as_string a l (cs, i, k) = (cs, i, omega arith)
IsArgument-more m n f Items.as_signed a l h = h
IsArgument-more m n f Items.as_unsigned a l h = h
IsArgument-more m n f Items.as_octal a l h = h
IsArgument-more m n f Items.as_pointer a l h = h
IsArgument-more m n f Items.as_hex a l h = h

module _ {S : Type 0} (putch : ℕ → S → S) (m : Mem) where
  step_padding :
      (p : Padding) (f fmt : ℕ) (av : List ℕ) (s : S)
      → Stands m fmt (padding_code p)
      → vprintfmt putch m (length (padding_code p) + f) (escape no_flags) fmt av s
        ≡ vprintfmt putch m f (escape (flags p 0)) (fmt + length (padding_code p)) av s
  unfolding vprintfmt
  step_padding Items.spaces f fmt av s h =
      let e : 0 + f ≡ f = omega arith in let e' : fmt + 0 ≡ fmt = omega arith in rw (e, e') refl
  step_padding Items.zeros f fmt av s h =
      let e : 1 + f ≡ suc f = omega arith in rw (e, vprintfmt, h.0) refl
  step_padding Items.dashes f fmt av s h =
      let e : 1 + f ≡ suc f = omega arith in rw (e, vprintfmt, h.0) refl

  step_width :
      (p : Padding) (w : ℕ) (k : Kind) (f fmt : ℕ) (av : List ℕ) (s : S)
      → w ≤ 9
      → Stands m fmt (width_code w ++ (letter k ∷ []))
      → vprintfmt putch m (length (width_code w) + suc f) (escape (flags p 0)) fmt av s
        ≡ vprintfmt putch m (suc f) (escape (flags p w)) (fmt + length (width_code w)) av s
  unfolding vprintfmt process_precision
  step_width p zero k f fmt av s l h =
      let e : 0 + suc f ≡ suc f = omega arith in
      let e' : fmt + 0 ≡ fmt = omega arith in rw (e, e') refl
  step_width p (suc w) k f fmt av s l (h, (z, u)) =
      let e : 1 + suc f ≡ suc (suc f) = omega arith in
      let c : classify (m fmt) ≡ Conversions.digit_flag =
        classify_digit (m fmt) (omega arith) (omega arith) in
      let large = letter_large k in
      let n : m fmt - b'0' ≡ suc w = omega arith in
      let r : read_digits (suc f) m (m fmt) (fmt + 1) 0 ≡ some (suc w, fmt + 1) =
        read_digits_one f m (m fmt) (fmt + 1) (omega arith) ∙ ap (λ x. some (x, fmt + 1)) n in
      rw (e, vprintfmt, c, r) refl

  step_percent_sign :
      (f fmt : ℕ) (av : List ℕ) (s : S)
      → m fmt ≡ b'%'
      → vprintfmt putch m (suc f) (escape no_flags) fmt av s
        ≡ vprintfmt putch m f text (fmt + 1) av (putch b'%' s)
  unfolding vprintfmt
  step_percent_sign f fmt av s z = rw (z, vprintfmt) refl

  -- a whole conversion
  step_converted :
      (p : Padding) (w : ℕ) (k : Kind) (f fmt a : ℕ) (av : List ℕ) (s : S)
      → w ≤ 9
      → Stands m fmt (item_code (converted p w k))
      → Items.IsArgument m f k a
      → (cs : List ℕ) × Items.Shows m p w a k cs
        × (vprintfmt putch m (length (item_code (converted p w k)) + f) text fmt (a ∷ av) s
            ≡ vprintfmt putch m f text
                (fmt + length (item_code (converted p w k)))
                av
                (puts putch cs s))
  step_converted p w k f fmt a av s l (z, h) i =
      let (hp, hw) =
        Stands-append m (fmt + 1) (padding_code p) (width_code w ++ (letter k ∷ [])) h in
      let pa : ℕ = fmt + 1 + length (padding_code p) in
      let (hw', (hl, u)) = Stands-append m pa (width_code w) (letter k ∷ []) hw in
      let (cs, sh, e) = step-Shows putch m k p w f (pa + length (width_code w)) a av s hl i in
      let len1 = length-append (padding_code p) (width_code w ++ (letter k ∷ [])) in
      let len2 = length-append (width_code w) (letter k ∷ []) in
      let fuel : length (item_code (converted p w k)) + f
          ≡ suc (length (padding_code p) + (length (width_code w) + suc f)) =
        omega arith in
      let place : fmt + length (item_code (converted p w k)) ≡ pa + length (width_code w) + 1 =
        omega arith in
      (
        cs,
        sh,
        rw (fuel, place)
            (step_percent putch m _ fmt (a ∷ av) s z
              ∙ step_padding p _ (fmt + 1) (a ∷ av) s hp
              ∙ step_width p w k f pa (a ∷ av) s l hw
              ∙ e),
      )

  -- If a format is written with the codes of items and a NUL, each conversion has its argument, each
  -- string argument is a string of fewer than `n` characters, and the fuel is more than the length
  -- of the format and `n` together, vprintfmt ends and has printed what the items show, in their order.
  pub vprintfmt-ShowsAll :
      (is : List Item) (n f fmt : ℕ) (av : List ℕ) (s : S)
      → Stands m fmt (format_code is ++ (0 ∷ []))
      → CanPrint m n is av
      → length (format_code is) + n < f
      → (cs : List ℕ) × ShowsAll m is av cs
        × (vprintfmt putch m f text fmt av s ≡ some (puts putch cs s))
  vprintfmt-ShowsAll [] n zero fmt av s h c l = absurd (omega arith)
  vprintfmt-ShowsAll [] n (suc f) fmt av s h c l =
      ([], shows_none av, step_end putch m f fmt av s h.0)
  vprintfmt-ShowsAll (itself c ∷ is) n zero fmt av s h ok l = absurd (omega arith)
  vprintfmt-ShowsAll (itself c ∷ is) n (suc f) fmt av s h ok l =
      let (cs, sh, e) = vprintfmt-ShowsAll is n f (fmt + 1) av (putch c s) h.1 ok.2 (omega arith) in
      (
        c ∷ cs,
        shows_itself c is av cs sh,
        step_char putch m f fmt av s (omega (arith, h.0)) (omega (arith, h.0))
            ∙ ap (λ x. vprintfmt putch m f text (fmt + 1) av (putch x s)) h.0
            ∙ e,
      )
  vprintfmt-ShowsAll (percent_sign ∷ is) n zero fmt av s h ok l = absurd (omega arith)
  vprintfmt-ShowsAll (percent_sign ∷ is) n (suc zero) fmt av s h ok l = absurd (omega arith)
  vprintfmt-ShowsAll (percent_sign ∷ is) n (suc (suc f)) fmt av s h ok l =
      let (cs, sh, e) =
        vprintfmt-ShowsAll is n f (fmt + 1 + 1) av (putch b'%' s) h.1.1 ok (omega arith) in
      (
        b'%' ∷ cs,
        shows_percent is av cs sh,
        step_percent putch m (suc f) fmt av s h.0 ∙ step_percent_sign f (fmt + 1) av s h.1.0 ∙ e,
      )
  vprintfmt-ShowsAll (converted p w k ∷ is) n f fmt [] s h ok l = absurd ok
  vprintfmt-ShowsAll (converted p w k ∷ is) n f fmt (a ∷ av) s h (wl, i, ok) l =
      let code = item_code (converted p w k) in
      let (hi, hr) =
        Stands-append m fmt code (format_code is ++ (0 ∷ []))
          (subst (Stands m fmt) (append_assoc code (format_code is) (0 ∷ [])) h) in
      let len = length-append code (format_code is) in
      let fuel : f ≡ length code + (f - length code) = omega arith in
      let (cs, sh, e) =
        step_converted p w k (f - length code) fmt a av s wl hi
          (IsArgument-more m n (f - length code) k a (omega arith) i) in
      let (ds, shs, e') =
        vprintfmt-ShowsAll is n (f - length code) (fmt + length code) av (puts putch cs s) hr ok
          (omega arith) in
      (
        cs ++ ds,
        shows_converted p w a k is av cs ds sh shs,
        ap (λ g. vprintfmt putch m g text fmt (a ∷ av) s) fuel
            ∙ e
            ∙ e'
            ∙ ap some (sym (puts-append putch cs ds s)),
      )

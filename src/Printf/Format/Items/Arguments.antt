-- ===== src/Printf/Format/Items/Arguments.antt =====
-- Each conversion of vprintfmt (lib/printfmt.c) prints what its item shows.

use vukernelprogramming.Prelude.{
  ℕ, zero, suc, ◌+◌, ◌-◌, ◌^◌, ◌≤◌, ◌<◌, ◌≡◌, refl, true, false, Option, none, some, List, [], ◌∷◌,
  ◌++◌, map, length, arith, ltb, Bool-cases, inl, inr, ◌∙◌, ap, sym,
}
use vukernelprogramming.Prelude.Int.{ℤ, pos, negsuc}
use vukernelprogramming.Memory.{Mem}
use vukernelprogramming.Printf.Number.{digit}
use vukernelprogramming.Printf.Number.Digits.{puts, puts-append, IsNumeral, printnum-Prints}
use vukernelprogramming.Printf.Conversions.{no_flags, signed_word, getint, error_string, codes}
use vukernelprogramming.Printf.Format.{text, escape, string_arg, number_out, error_out, vprintfmt}
use vukernelprogramming.Printf.Format.Plain.{getuint_one}
use vukernelprogramming.Printf.Format.Items
use vukernelprogramming.Printf.Format.Items.{
  Padding, Kind, letter, shows_char, shows_string, shows_positive, shows_negative, shows_unsigned,
  shows_octal, shows_pointer, shows_hex, shows_name, shows_error, pad_char, padded, magnitude,
  Shows, IsArgument, width_of, flags,
}
use vukernelprogramming.Printf.Format.Items.Strings.{string_out-IsString}

module _ {S : Type 0} (putch : ℕ → S → S) (m : Mem) where
  -- what the number of a conversion with these flags looks like
  abbrev ShowsNumber : Padding → ℕ → ℕ → ℕ → S → Option S → Type 0
  ShowsNumber p w base n s o =
      (ds : List ℕ) × IsNumeral base n ds × (o ≡ some (puts putch (padded p w (map digit ds)) s))

  length-digits : (ds : List ℕ) → length (map digit ds) ≡ length ds
  length-digits [] = refl
  length-digits (d ∷ ds) = ap suc (length-digits ds)

  number_out-ShowsNumber :
      (p : Padding) (w base n : ℕ) (s : S)
      → 2 ≤ base
      → n < 2 ^ 64
      → ShowsNumber p w base n s (number_out putch m n base (flags p w) s)
  unfolding number_out
  number_out-ShowsNumber p zero base n s b l =
      let (ds, d, e) = printnum-Prints putch 64 n base 0 (pad_char p) s b l in
      let q = length-digits ds in (ds, d, rw q e)
  number_out-ShowsNumber p (suc w) base n s b l =
      let (ds, d, e) = printnum-Prints putch 64 n base (suc w) (pad_char p) s b l in
      let q = length-digits ds in (ds, d, rw q e)

  -- the word of an int has a magnitude of at most 2^31
  magnitude-signed_word : (a : ℕ) → a < 2 ^ 32 → magnitude (signed_word a) < 2 ^ 64
  unfolding signed_word
  magnitude-signed_word a l = elim (Bool-cases (ltb a (2 ^ 31))) [
    | inl t ↦ rw (signed_word, t) (omega arith)
    | inr t ↦ rw (signed_word, t) (omega arith)
  ]

  error_out-named :
      (err : ℤ) (cs : List ℕ) (s : S)
      → error_string (magnitude err) ≡ some cs
      → error_out putch m err s ≡ some (puts putch cs s)
  unfolding error_out
  error_out-named (pos n) cs s e = rw (error_out, e) refl
  error_out-named (negsuc n) cs s e = rw (error_out, e) refl

  error_out-unnamed :
      (err : ℤ) (s : S)
      → error_string (magnitude err) ≡ none
      → error_out putch m err s
        ≡ number_out putch m (magnitude err) 10 no_flags (puts putch (codes "error ") s)
  unfolding error_out
  error_out-unnamed (pos n) s e = rw (error_out, e) refl
  error_out-unnamed (negsuc n) s e = rw (error_out, e) refl

  error_number :
      (err : ℤ) (s : S)
      → error_string (magnitude err) ≡ none
      → magnitude err < 2 ^ 64
      → (ds : List ℕ) × IsNumeral 10 (magnitude err) ds
        × (error_out putch m err s ≡ some (puts putch (codes "error " ++ map digit ds) s))
  error_number err s e l =
      let (ds, d, e') =
        number_out-ShowsNumber Items.spaces 0 10 (magnitude err) (puts putch (codes "error ") s)
          (omega arith) l in
      let z : 0 - length (map digit ds) ≡ 0 = omega arith in
      let e'' = rw z at e' in
      (
        ds,
        d,
        error_out-unnamed err s e
            ∙ e''
            ∙ ap some (sym (puts-append putch (codes "error ") (map digit ds) s)),
      )

  error_out-Shows :
      (p : Padding) (w a : ℕ) (s : S)
      → a < 2 ^ 32
      → (cs : List ℕ) × Shows m p w a Items.as_error cs
        × (error_out putch m (signed_word a) s ≡ some (puts putch cs s))
  error_out-Shows p w a s l = go (error_string (magnitude (signed_word a))) refl
    where
      go :
          (o : Option (List ℕ))
          → error_string (magnitude (signed_word a)) ≡ o
          → (cs : List ℕ) × Shows m p w a Items.as_error cs
            × (error_out putch m (signed_word a) s ≡ some (puts putch cs s))
      go (some cs) e = (cs, shows_name cs e, error_out-named (signed_word a) cs s e)
      go none e =
          let (ds, d, e') = error_number (signed_word a) s e (magnitude-signed_word a l) in
          (_, shows_error ds e d, e')

  -- a magnitude and a sign
  getint_small : (a : ℕ) (av : List ℕ) → a < 2 ^ 31 → getint (a ∷ av) 0 ≡ some (false, a, av)
  unfolding getint
  getint_small a av l =
      let t : ltb a (2 ^ 31) ≡ true = ground arith in rw (getint, getuint_one putch m a av, t) refl

  getint_large :
      (a : ℕ) (av : List ℕ) → 2 ^ 31 ≤ a → getint (a ∷ av) 0 ≡ some (true, 2 ^ 32 - a, av)
  unfolding getint
  getint_large a av l =
      let t : ltb a (2 ^ 31) ≡ false = ground arith in rw (getint, getuint_one putch m a av, t) refl

  -- the conversion and the flags `p` and `w` in front of it
  pub step-Shows :
      (k : Kind) (p : Padding) (w f fmt a : ℕ) (av : List ℕ) (s : S)
      → m fmt ≡ letter k
      → IsArgument m f k a
      → (cs : List ℕ) × Shows m p w a k cs
        × (vprintfmt putch m (suc f) (escape (flags p w)) fmt (a ∷ av) s
            ≡ vprintfmt putch m f text (fmt + 1) av (puts putch cs s))
  unfolding vprintfmt
  step-Shows Items.as_char p w f fmt a av s z h = (_, shows_char, rw (z, vprintfmt) refl)
  step-Shows Items.as_error p w f fmt a av s z h =
      let (cs, sh, e) = error_out-Shows p w a s h in (cs, sh, rw (z, vprintfmt, e) refl)
  step-Shows Items.as_string p w f fmt a av s z (cs, i, l) =
      let e = string_out-IsString putch m p w (string_arg a) cs f s i l in
      (_, shows_string cs i, rw (z, vprintfmt, e) refl)
  step-Shows Items.as_signed p w f fmt a av s z h = elim (Bool-cases (ltb a (2 ^ 31))) [
    | inl t ↦
        let (ds, d, e) = number_out-ShowsNumber p w 10 a s (omega arith) (omega arith) in
        (
          _,
          shows_positive ds (ground arith) d,
          rw (z, vprintfmt, getint_small a av (ground arith), e) refl,
        )
    | inr t ↦
        let (ds, d, e) =
          number_out-ShowsNumber p w 10 (2 ^ 32 - a) (putch b'-' s) (omega arith) (omega arith) in
        (
          _,
          shows_negative ds (ground arith) d,
          rw (z, vprintfmt, getint_large a av (ground arith), e) refl,
        )
  ]
  step-Shows Items.as_unsigned p w f fmt a av s z h =
      let (ds, d, e) = number_out-ShowsNumber p w 10 a s (omega arith) (omega arith) in
      (_, shows_unsigned ds d, rw (z, vprintfmt, getuint_one putch m a av, e) refl)
  step-Shows Items.as_octal p w f fmt a av s z h =
      let (ds, d, e) = number_out-ShowsNumber p w 8 a s (omega arith) (omega arith) in
      (_, shows_octal ds d, rw (z, vprintfmt, getuint_one putch m a av, e) refl)
  step-Shows Items.as_pointer p w f fmt a av s z h =
      let (ds, d, e) =
        number_out-ShowsNumber p w 16 a (putch b'x' (putch b'0' s)) (omega arith) (omega arith) in
      (_, shows_pointer ds d, rw (z, vprintfmt, e) refl)
  step-Shows Items.as_hex p w f fmt a av s z h =
      let (ds, d, e) = number_out-ShowsNumber p w 16 a s (omega arith) (omega arith) in
      (_, shows_hex ds d, rw (z, vprintfmt, getuint_one putch m a av, e) refl)

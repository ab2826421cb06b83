-- ===== src/Printf/Format/Plain.antt =====
-- Formats without conversions, and the steps that lead from one character of a format to the next.
use vukernelprogramming.Prelude.{
  ℕ, suc, ◌+◌, ◌≡◌, ◌≢◌, refl, true, false, some, List, [], ◌∷◌, ◌==◌, arith, length, ◌∙◌, ap,
}
use vukernelprogramming.Memory.{Mem}
use vukernelprogramming.Printf.Number.Digits.{puts}
use vukernelprogramming.Printf.Conversions.{no_flags, getuint}
use vukernelprogramming.Printf.Format.{text, escape, vprintfmt}

-- no character of the text is a '%'
abbrev pub NoPercent : List ℕ → Type 0
NoPercent [] = Unit {0}
NoPercent (c ∷ cs) = (c ≢ b'%') × NoPercent cs

-- the characters `cs` stand at `p`, none of them a NUL or a '%'
abbrev pub Text : Mem → ℕ → List ℕ → Type 0
Text m p [] = Unit {0}
Text m p (c ∷ cs) = (m p ≡ c) × (c ≢ 0) × (c ≢ b'%') × Text m (p + 1) cs

module _ {S : Type 0} (putch : ℕ → S → S) (m : Mem) where
  pub step_char :
      (f fmt : ℕ) (ap : List ℕ) (s : S)
      → m fmt ≢ 0
      → m fmt ≢ b'%'
      → vprintfmt putch m (suc f) text fmt ap s
        ≡ vprintfmt putch m f text (fmt + 1) ap (putch (m fmt) s)
  unfolding vprintfmt
  step_char f fmt ap s n p =
      let e : (m fmt == b'%') ≡ false = ground arith in
      let e' : (m fmt == 0) ≡ false = ground arith in rw (e, e', vprintfmt) refl

  pub step_end :
      (f fmt : ℕ) (ap : List ℕ) (s : S)
      → m fmt ≡ 0
      → vprintfmt putch m (suc f) text fmt ap s ≡ some s
  unfolding vprintfmt
  step_end f fmt ap s z =
      let e : (m fmt == b'%') ≡ false = ground arith in
      let e' : (m fmt == 0) ≡ true = ground arith in rw (e, e', vprintfmt) refl

  pub step_percent :
      (f fmt : ℕ) (ap : List ℕ) (s : S)
      → m fmt ≡ b'%'
      → vprintfmt putch m (suc f) text fmt ap s
        ≡ vprintfmt putch m f (escape no_flags) (fmt + 1) ap s
  unfolding vprintfmt
  step_percent f fmt ap s z =
      let e : (m fmt == b'%') ≡ true = ground arith in rw (e, vprintfmt) refl

  -- the text in front of anything else
  vprintfmt-text :
      (cs : List ℕ) (f fmt : ℕ) (ap : List ℕ) (s : S)
      → Text m fmt cs
      → vprintfmt putch m (length cs + f) text fmt ap s
        ≡ vprintfmt putch m f text (fmt + length cs) ap (puts putch cs s)
  vprintfmt-text [] f fmt ap s h =
      let e : 0 + f ≡ f = omega arith in let e' : fmt + 0 ≡ fmt = omega arith in rw (e, e') refl
  vprintfmt-text (c ∷ cs) f fmt ap s h =
      let e : suc (length cs) + f ≡ suc (length cs + f) = omega arith in
      let e' : fmt + suc (length cs) ≡ fmt + 1 + length cs = omega arith in
      rw (e, e', step_char (length cs + f) fmt ap s (ground arith) (ground arith), h.0)
        (vprintfmt-text cs f (fmt + 1) ap (putch c s) h.3)

  -- A format that has no '%' prints its characters and takes no argument.
  pub vprintfmt-plain :
      (cs : List ℕ) (f fmt : ℕ) (ap : List ℕ) (s : S)
      → Text m fmt cs
      → m (fmt + length cs) ≡ 0
      → vprintfmt putch m (length cs + suc f) text fmt ap s ≡ some (puts putch cs s)
  vprintfmt-plain cs f fmt ap s h z =
      vprintfmt-text cs (suc f) fmt ap s h ∙ step_end f (fmt + length cs) ap (puts putch cs s) z

  pub getuint_one : (w : ℕ) (ap : List ℕ) → getuint (w ∷ ap) 0 ≡ some (w, ap)
  unfolding getuint
  getuint_one w [] = refl
  getuint_one w (v ∷ ap) = refl

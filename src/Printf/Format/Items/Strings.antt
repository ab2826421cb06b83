-- ===== src/Printf/Format/Items/Strings.antt =====
-- The `%s` conversion of vprintfmt (lib/printfmt.c) prints the string, padded to the width.

use vukernelprogramming.Prelude.{
  ℕ, Bool, ltb, ◌&&◌, not, zero, suc, ◌+◌, ◌-◌, ◌<◌, ◌≡◌, refl, true, false, some, List, [], ◌∷◌,
  ◌++◌, map, length, arith, ◌==◌, replicate, ◌∙◌, ap,
}
use vukernelprogramming.Prelude.Int.{negsuc, pos_part}
use vukernelprogramming.Memory.{Mem}
use vukernelprogramming.Printf.Number.Digits.{puts, puts-append, pad-replicate}
use vukernelprogramming.Printf.Conversions.{Source, sign_extend, char_of, bounded_length}
use vukernelprogramming.Printf.Format.{string_chars, string_out}
use vukernelprogramming.Printf.Format.Items.{
  Padding, spaces, zeros, dashes, IsString, aligned, padded, pad_char, width_of, flags,
}

bounded_length-IsString :
    (m : Mem) (src : Source) (cs : List ℕ) (f i : ℕ)
    → IsString m src i cs
    → length cs < f
    → bounded_length f m src (negsuc 0) i ≡ some (i + length cs)
unfolding bounded_length
bounded_length-IsString m src cs zero i h l = absurd (omega arith)
bounded_length-IsString m src [] (suc f) i h l =
    let z : (char_of m src i == 0) ≡ true = ground arith in
    let e : i + 0 ≡ i = omega arith in rw (bounded_length, z, e) refl
bounded_length-IsString m src (c ∷ cs) (suc f) i h l =
    let z : (char_of m src i == 0) ≡ false = ground arith in
    let e : i + suc (length cs) ≡ i + 1 + length cs = omega arith in
    rw (bounded_length, z, e) (bounded_length-IsString m src cs f (i + 1) h.2 (omega arith))

length-sign_extend : (cs : List ℕ) → length (map sign_extend cs) ≡ length cs
length-sign_extend [] = refl
length-sign_extend (c ∷ cs) = ap suc (length-sign_extend cs)

module _ {S : Type 0} (putch : ℕ → S → S) (m : Mem) where
  string_chars-IsString :
      (p : Padding) (w : ℕ) (src : Source) (cs : List ℕ) (f i : ℕ) (s : S)
      → IsString m src i cs
      → length cs < f
      → string_chars putch m f src (flags p w) i s
        ≡ some (i + length cs, puts putch (map sign_extend cs) s)
  unfolding string_chars
  string_chars-IsString p w src cs zero i s h l = absurd (omega arith)
  string_chars-IsString p w src [] (suc f) i s h l =
      let z : (char_of m src i == 0) ≡ true = ground arith in
      let e : i + 0 ≡ i = omega arith in rw (string_chars, z, e) refl
  string_chars-IsString p w src (c ∷ cs) (suc f) i s h l =
      let z : (char_of m src i == 0) ≡ false = ground arith in
      let e : i + suc (length cs) ≡ i + 1 + length cs = omega arith in
      rw (string_chars, z, e, h.0)
        (string_chars-IsString p w src cs f (i + 1) (putch (sign_extend c) s) h.2 (omega arith))

  -- whether the padding stands on the left
  abbrev is_left : Padding → ℕ → Bool
  is_left p w = ltb 0 (pos_part (width_of w)) && not (pad_char p == b'-')

  string_out-left :
      (p : Padding) (w : ℕ) (src : Source) (cs : List ℕ) (f : ℕ) (s : S)
      → is_left p w ≡ true
      → IsString m src 0 cs
      → length cs < f
      → string_out putch m f src (flags p w) s
        ≡ some (
            puts putch
              (replicate (pos_part (width_of w) - length cs) (pad_char p) ++ map sign_extend cs)
              s)
  unfolding string_out
  string_out-left p w src cs f s b h l =
      let e0 : 0 + length cs ≡ length cs = omega arith in
      let e1 : 0 - length cs ≡ 0 = omega arith in
      let fill : List ℕ = replicate (pos_part (width_of w) - length cs) (pad_char p) in
      rw
        (
          string_out,
          bounded_length-IsString m src cs f 0 h l,
          b,
          e0,
          pad-replicate putch (pos_part (width_of w) - length cs) (pad_char p) s,
          string_chars-IsString p w src cs f 0 (puts putch fill s) h l,
          b,
          e0,
          e1,
          pad-replicate putch 0 b' ' (puts putch (map sign_extend cs) (puts putch fill s)),
          puts-append putch fill (map sign_extend cs) s,
        )
        refl

  string_out-right :
      (p : Padding) (w : ℕ) (src : Source) (cs : List ℕ) (f : ℕ) (s : S)
      → is_left p w ≡ false
      → IsString m src 0 cs
      → length cs < f
      → string_out putch m f src (flags p w) s
        ≡ some (
            puts putch (map sign_extend cs ++ replicate (pos_part (width_of w) - length cs) b' ') s)
  unfolding string_out
  string_out-right p w src cs f s b h l =
      let e0 : 0 + length cs ≡ length cs = omega arith in
      let fill : List ℕ = replicate (pos_part (width_of w) - length cs) b' ' in
      rw
        (
          string_out,
          bounded_length-IsString m src cs f 0 h l,
          b,
          string_chars-IsString p w src cs f 0 s h l,
          b,
          e0,
          pad-replicate putch (pos_part (width_of w) - length cs) b' '
              (puts putch (map sign_extend cs) s),
          puts-append putch (map sign_extend cs) fill s,
        )
        refl

  no_padding :
      (p : Padding) (cs : List ℕ) (s : S)
      → puts putch (map sign_extend cs ++ replicate (0 - length cs) b' ') s
        ≡ puts putch (padded p 0 (map sign_extend cs)) s
  no_padding p cs s =
      let e : 0 - length cs ≡ 0 = omega arith in
      let e' : 0 - length (map sign_extend cs) ≡ 0 = omega arith in
      rw (e, e', puts-append putch (map sign_extend cs) [] s) refl

  -- The string is printed behind or in front of its padding, if the fuel is more than its length.
  pub string_out-IsString :
      (p : Padding) (w : ℕ) (src : Source) (cs : List ℕ) (f : ℕ) (s : S)
      → IsString m src 0 cs
      → length cs < f
      → string_out putch m f src (flags p w) s
        ≡ some (puts putch (aligned p w (map sign_extend cs)) s)
  string_out-IsString spaces zero src cs f s h l =
      string_out-right spaces 0 src cs f s refl h l ∙ ap some (no_padding spaces cs s)
  string_out-IsString zeros zero src cs f s h l =
      string_out-right zeros 0 src cs f s refl h l ∙ ap some (no_padding zeros cs s)
  string_out-IsString dashes zero src cs f s h l =
      let e = length-sign_extend cs in rw e (string_out-right dashes zero src cs f s refl h l)
  string_out-IsString spaces (suc w) src cs f s h l =
      let e = length-sign_extend cs in
      rw e (string_out-left spaces (suc w) src cs f s (ground arith) h l)
  string_out-IsString zeros (suc w) src cs f s h l =
      let e = length-sign_extend cs in
      rw e (string_out-left zeros (suc w) src cs f s (ground arith) h l)
  string_out-IsString dashes (suc w) src cs f s h l =
      let e = length-sign_extend cs in
      rw e (string_out-right dashes (suc w) src cs f s (ground arith) h l)

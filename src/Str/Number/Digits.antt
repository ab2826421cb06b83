-- ===== src/Str/Number/Digits.antt =====
-- The digit loop of strtol reads a numeral.
use vukernelprogramming.Prelude.{
  ℕ, zero, suc, ◌+◌, ◌*◌, ◌/◌, ◌%◌, ◌^◌, ◌<◌, ◌≡◌, refl, Option-cases, Bool-cases, some, false, ◌⊎◌,
  inl, inr, ◌≤◌, ◌-◌, List, [], ◌∷◌, leb, arith, length, ◌∙◌, ap, sym,
}
use native.Mathlib.Nat.{div-add-mod, mul-add-mod_self_left}
use vukernelprogramming.Memory.{Mem}
use vukernelprogramming.Str.Number.{digit_value, strtol_digits}
use vukernelprogramming.Printf.Number.Digits.{value_from}

-- the character of a digit: '0' to '9', and from 10 on a letter of either case
abbrev pub DigitChar : ℕ → ℕ → Type 0
DigitChar d c =
    ((d < 10) × (c ≡ b'0' + d))
    ⊎ ((10 ≤ d) × (d < 36) × ((c ≡ b'a' + (d - 10)) ⊎ (c ≡ b'A' + (d - 10))))

-- the characters at `p` stand for the digits `ds` of the base
abbrev pub Digits : Mem → ℕ → ℕ → List ℕ → Type 0
Digits m base p [] = Unit {0}
Digits m base p (d ∷ ds) = DigitChar d (m p) × (d < base) × Digits m base (p + 1) ds

-- a character that is no digit of the base: no digit at all, or one that is too large
abbrev pub NoDigit : ℕ → ℕ → Type 0
NoDigit base c = (d : ℕ) → d < base → ¬ DigitChar d c

DigitChar-digit_value : (d c : ℕ) → DigitChar d c → digit_value c ≡ some d
unfolding digit_value
DigitChar-digit_value d c (inl (l, e)) = rw e (ground arith)
DigitChar-digit_value d c (inr (l, h, inl e)) = rw e (ground arith)
DigitChar-digit_value d c (inr (l, h, inr e)) = rw e (ground arith)

digit_value-DigitChar : (d c : ℕ) → digit_value c ≡ some d → DigitChar d c
unfolding digit_value
digit_value-DigitChar d c h = ground arith

product_split :
    (q r base d : ℕ) → (2 ^ 32 * q + r) * base + d ≡ 2 ^ 32 * (q * base) + (r * base + d)
product_split q r base d = grind arith

step_low : (base d v : ℕ) → (v * base + d) % 2 ^ 32 ≡ (v % 2 ^ 32 * base + d) % 2 ^ 32
step_low base d v =
    ap (λ k. (k * base + d) % 2 ^ 32) (sym (div-add-mod v (2 ^ 32)))
    ∙ ap (λ k. k % 2 ^ 32) (product_split (v / 2 ^ 32) (v % 2 ^ 32) base d)
    ∙ mul-add-mod_self_left (2 ^ 32) (v / 2 ^ 32 * base) (v % 2 ^ 32 * base + d)

step_mod :
    (base d v w : ℕ) → v % 2 ^ 32 ≡ w % 2 ^ 32 → (v * base + d) % 2 ^ 32 ≡ (w * base + d) % 2 ^ 32
step_mod base d v w h =
    step_low base d v ∙ ap (λ k. (k * base + d) % 2 ^ 32) h ∙ sym (step_low base d w)

value_from-mod :
    (base : ℕ) (ds : List ℕ) (v w : ℕ)
    → v % 2 ^ 32 ≡ w % 2 ^ 32
    → value_from base v ds % 2 ^ 32 ≡ value_from base w ds % 2 ^ 32
value_from-mod base [] v w h = h
value_from-mod base (d ∷ ds) v w h =
    value_from-mod base ds (v * base + d) (w * base + d) (step_mod base d v w h)

strtol_digits-NoDigit :
    (f : ℕ) (m : Mem) (p base v : ℕ)
    → NoDigit base (m p)
    → strtol_digits (suc f) m p base v ≡ some (v, p)
unfolding strtol_digits
strtol_digits-NoDigit f m p base v h = elim (Option-cases (digit_value (m p))) [
  | inl no_value ↦ rw (no_value, strtol_digits) refl
  | inr (d, e) ↦ elim (Bool-cases (leb base d)) [
    | inl large ↦ rw (e, large, strtol_digits) refl
    | inr small ↦ absurd (h d (ground arith) (digit_value-DigitChar d (m p) e))
  ]
]

-- If the digits `ds` of the base stand at `p`, letters in either case, and behind them a character
-- that is no digit of the base, the loop, with more fuel than digits, ends behind them with the value
-- of the numeral modulo 2^32.
pub strtol_digits-value :
    (ds : List ℕ) (f : ℕ) (m : Mem) (p base v : ℕ)
    → Digits m base p ds
    → NoDigit base (m (p + length ds))
    → length ds < f
    → v < 2 ^ 32
    → strtol_digits f m p base v ≡ some (value_from base v ds % 2 ^ 32, p + length ds)
unfolding strtol_digits
strtol_digits-value [] zero m p base v h e fuel low = absurd (omega arith)
strtol_digits-value (d ∷ ds) zero m p base v h e fuel low = absurd (omega arith)
strtol_digits-value [] (suc f) m p base v h e fuel low =
    let here : p + 0 ≡ p = omega arith in
    let small : v % 2 ^ 32 ≡ v = omega arith in
    rw (here, small) (strtol_digits-NoDigit f m p base v (rw here at e))
strtol_digits-value (d ∷ ds) (suc f) m p base v h e fuel low =
    let end : p + suc (length ds) ≡ p + 1 + length ds = omega arith in
    let digit : digit_value (m p) ≡ some d = DigitChar-digit_value d (m p) h.0 in
    let more : leb base d ≡ false = ground arith in
    rw (digit, more, strtol_digits)
      (strtol_digits-value ds f m (p + 1) base ((v * base + d) % 2 ^ 32) h.2 (rw end at e)
          (omega arith) (omega arith)
        ∙ ap (λ k. some (k, p + 1 + length ds))
            (value_from-mod base ds ((v * base + d) % 2 ^ 32) (v * base + d) (omega arith))
        ∙ ap (λ k. some (value_from base (v * base + d) ds % 2 ^ 32, k)) (sym end))

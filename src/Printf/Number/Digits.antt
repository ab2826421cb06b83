-- ===== src/Printf/Number/Digits.antt =====
-- printnum prints the digits of the number, padded on the left to the width.
use mathlib.Core.Option
use mathlib.Core.List.{append_assoc, map-append}
use native.Mathlib.Nat.{div-add-mod, mul_comm, le-div_iff_mul-le, pow-suc, mod-eq_of_lt}
use vukernelprogramming.Prelude.{
  ℕ, zero, suc, ◌+◌, ◌-◌, ◌*◌, ◌/◌, ◌%◌, ◌^◌, ◌≤◌, ◌<◌, ◌≡◌, ◌≢◌, refl, Option, some, List, [], ◌∷◌,
  ◌++◌, map, arith, leb, false, length, replicate, length-append, Bool-cases, inl, inr, ◌∙◌, ap,
  sym,
}
use vukernelprogramming.Printf.Number.{digit, pad, printnum}

-- the number that a list of digits stands for, the first digit the most significant
abbrev pub value_from : ℕ → ℕ → List ℕ → ℕ
value_from base acc [] = acc
value_from base acc (d ∷ ds) = value_from base (acc * base + d) ds

abbrev pub IsDigits : ℕ → List ℕ → Type 0
IsDigits base [] = Unit {0}
IsDigits base (d ∷ ds) = (d < base) × IsDigits base ds

abbrev pub first : List ℕ → ℕ
first [] = 0
first (d ∷ ds) = d

first-append : (ds es : List ℕ) → 0 < length ds → first (ds ++ es) ≡ first ds
first-append [] es h = absurd (omega arith)
first-append (d ∷ ds) es h = refl

-- the digits of `num`: their value, their range, and no leading 0 but for the number 0
pub record IsNumeral (base num : ℕ) (ds : List ℕ) : Type 0 where
  pub value : value_from base 0 ds ≡ num
  pub digits : IsDigits base ds
  pub some_digit : 0 < length ds
  pub leading : num ≢ 0 → first ds ≢ 0

value_from-snoc :
    (base acc d : ℕ) (ds : List ℕ)
    → value_from base acc (ds ++ (d ∷ [])) ≡ value_from base acc ds * base + d
value_from-snoc base acc d [] = refl
value_from-snoc base acc d (x ∷ ds) = value_from-snoc base (acc * base + x) d ds

IsDigits-snoc :
    (base d : ℕ) (ds : List ℕ) → IsDigits base ds → d < base → IsDigits base (ds ++ (d ∷ []))
IsDigits-snoc base d [] h k = (k, tt)
IsDigits-snoc base d (x ∷ ds) h k = (h.0, IsDigits-snoc base d ds h.1 k)

quotient_small : (num base f : ℕ) → 2 ≤ base → num < 2 ^ suc f → num / base < 2 ^ f
quotient_small num base f h k = grind (arith, pow-suc 2 f)

IsNumeral-one : (base num : ℕ) → num < base → IsNumeral base num (num ∷ [])
IsNumeral-one base num h = record {
  value = omega arith;
  digits = (h, tt);
  some_digit = omega arith;
  leading = λ n. n;
}

IsNumeral-snoc :
    (base num : ℕ) (ds : List ℕ)
    → 2 ≤ base
    → base ≤ num
    → IsNumeral base (num / base) ds
    → IsNumeral base num (ds ++ (num % base ∷ []))
IsNumeral-snoc base num ds b h n =
    let at_least_one : 1 ≤ num / base = (le-div_iff_mul-le (omega arith)).1 (omega arith) in
    record {
      value =
          value_from-snoc base 0 (num % base) ds
          ∙ ap (λ v. v * base + num % base) n.value
          ∙ ap (λ v. v + num % base) (mul_comm (num / base) base)
          ∙ div-add-mod num base;
      digits = IsDigits-snoc base (num % base) ds n.digits grind arith;
      some_digit = omega (arith, length-append ds (num % base ∷ []), n.some_digit);
      leading = λ z e.
          n.leading (λ q. omega (arith, at_least_one))
            (sym (first-append ds (num % base ∷ []) n.some_digit) ∙ e);
    }

module _ {S : Type 0} (putch : ℕ → S → S) where
  -- the characters of a list, one by one
  abbrev pub puts : List ℕ → S → S
  puts [] s = s
  puts (c ∷ cs) s = puts cs (putch c s)

  pub puts-append : (cs ds : List ℕ) (s : S) → puts (cs ++ ds) s ≡ puts ds (puts cs s)
  puts-append [] ds s = refl
  puts-append (c ∷ cs) ds s = puts-append cs ds (putch c s)

  pub pad-replicate : (n c : ℕ) (s : S) → pad putch n c s ≡ puts (replicate n c) s
  unfolding pad
  pad-replicate zero c s = refl
  pad-replicate (suc n) c s = pad-replicate n c (putch c s)

  -- the digits are printed behind as much padding as the width asks for
  abbrev pub Prints : ℕ → ℕ → ℕ → ℕ → S → Option S → Type 0
  Prints num base width padc s o =
      (ds : List ℕ) × IsNumeral base num ds
      × (o ≡ some (puts (replicate (width - length ds) padc ++ map digit ds) s))

  printnum-more :
      (num base width padc : ℕ) (s : S) (o : Option S)
      → 2 ≤ base
      → base ≤ num
      → Prints (num / base) base (width - 1) padc s o
      → Prints num base width padc s (Option.map (putch (digit (num % base))) o)
  printnum-more num base width padc s o b h (ds, n, e) = (
    ds ++ (num % base ∷ []),
    IsNumeral-snoc base num ds b h n,
    ap (Option.map (putch (digit (num % base)))) e ∙ ap some line,
  )
    where
      fill : List ℕ
      fill = replicate (width - 1 - length ds) padc

      same : width - length (ds ++ (num % base ∷ [])) ≡ width - 1 - length ds
      same = omega (arith, length-append ds (num % base ∷ []))

      line :
          putch (digit (num % base)) (puts (fill ++ map digit ds) s)
          ≡ puts
              (replicate (width - length (ds ++ (num % base ∷ []))) padc
                ++ map digit (ds ++ (num % base ∷ [])))
              s
      line =
          rw (same, map-append, ← append_assoc fill (map digit ds) (digit (num % base) ∷ []))
            (sym (puts-append (fill ++ map digit ds) (digit (num % base) ∷ []) s))

  printnum-last :
      (num base width padc : ℕ) (s : S)
      → num < base
      → Prints num base width padc s
          (some (putch (digit (num % base)) (pad putch (width - 1) padc s)))
  printnum-last num base width padc s h = (
    num ∷ [],
    IsNumeral-one base num h,
    rw
        (
          mod-eq_of_lt h,
          pad-replicate (width - 1) padc s,
          puts-append (replicate (width - 1) padc) (digit num ∷ []) s,
        )
        refl,
  )

  -- For a base of at least 2 and a number below 2 to the power of the fuel (64 for a number of 64
  -- bits), printnum ends; it prints the digits of the number in the base, without a leading 0,
  -- behind as many padding characters as are missing to the width. In a base above 17, a 0 stands for
  -- each digit of 17 or more.
  pub printnum-Prints :
      (f num base width padc : ℕ) (s : S)
      → 2 ≤ base
      → num < 2 ^ f
      → Prints num base width padc s (printnum putch (suc f) num base width padc s)
  unfolding printnum
  printnum-Prints zero num base width padc s b h =
      let z : leb base num ≡ false = ground arith in
      rw z (printnum-last num base width padc s (omega arith))
  printnum-Prints (suc f) num base width padc s b h = elim (Bool-cases (leb base num)) [
    | inl more ↦ rw more (
        printnum-more num base width padc s _ b (ground arith) (
          printnum-Prints f (num / base) base (width - 1) padc s b (quotient_small num base f b h)))
    | inr last ↦ rw last (printnum-last num base width padc s (ground arith))
  ]

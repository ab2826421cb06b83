-- ===== src/Str/Number.antt =====
-- strtol of lib/string.c. The value is the 32-bit pattern of a long, which wraps; beside it stands
-- the address that *endptr gets. `none` says that the fuel ran out.
pub mod Digits
use vukernelprogramming.Prelude.{
  ℕ, zero, suc, ◌+◌, ◌-◌, ◌*◌, ◌%◌, ◌^◌, Bool, true, false, ◌&&◌, ◌||◌, Option, none, some, ltb,
  leb, ◌==◌, if◌then◌else◌,
}
use vukernelprogramming.Memory.{Mem}

-- while (*s == ' ' || *s == '\t') s++;
strtol_blanks : ℕ → Mem → ℕ → Option ℕ
strtol_blanks zero m s = none
strtol_blanks (suc f) m s =
    let rest = strtol_blanks f m (s + 1) in if (m s == b' ') || (m s == 9) then rest else some s

-- the sign: neg, and where the number goes on
strtol_sign : Mem → ℕ → Bool × ℕ
strtol_sign m s =
    if m s == b'+' then (false, s + 1) else if m s == b'-' then (true, s + 1) else (false, s)

-- the prefix: the base, and where the digits start
strtol_prefix : Mem → ℕ → ℕ → ℕ × ℕ
strtol_prefix m s base =
    if ((base == 0) || (base == 16)) && ((m s == b'0') && (m (s + 1) == b'x'))
    then (16, s + 2)
    else if (base == 0) && (m s == b'0')
    then (8, s + 1)
    else if base == 0
    then (10, s)
    else (base, s)

-- dig
unfoldable pub digit_value : ℕ → Option ℕ
digit_value c =
    if leb b'0' c && leb c b'9'
    then some (c - b'0')
    else if leb b'a' c && leb c b'z'
    then some (c - b'a' + 10)
    else if leb b'A' c && leb c b'Z'
    then some (c - b'A' + 10)
    else none

-- the loop over the digits: val, and the end of the number
unfoldable pub strtol_digits : ℕ → Mem → ℕ → ℕ → ℕ → Option (ℕ × ℕ)
strtol_digits zero m s base val = none
strtol_digits (suc f) m s base val = elim (digit_value (m s)) [
  | none ↦ some (val, s)
  | some dig ↦
      let rest = strtol_digits f m (s + 1) base ((val * base + dig) % 2 ^ 32) in
      if leb base dig then some (val, s) else rest
]

unfoldable pub strtol : ℕ → Mem → ℕ → ℕ → Option (ℕ × ℕ)
unfolding strtol_blanks strtol_sign strtol_prefix strtol_digits digit_value
strtol f m s base = elim (strtol_blanks f m s) [
  | none ↦ none
  | some s1 ↦
      let (neg, s2) = strtol_sign m s1 in
      let (base', s3) = strtol_prefix m s2 base in
      elim (strtol_digits f m s3 base' 0) [
        | none ↦ none
        | some (val, s4) ↦ some (if neg then (2 ^ 32 - val) % 2 ^ 32 else val, s4)
      ]
]

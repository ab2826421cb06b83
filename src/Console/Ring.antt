-- ===== src/Console/Ring.antt =====
-- The circular input buffer of kern/console.c. A device's interrupt routine is an argument: it
-- returns an int and the device's next state. `none` says that the fuel ran out.
pub mod Queue
pub mod Poll
pub mod Wait
use vukernelprogramming.Prelude.{
  ℕ, zero, suc, ◌+◌, ◌-◌, ◌%◌, Bool, true, false, Option, none, some, ◌==◌, if◌then◌else◌,
}
use vukernelprogramming.Prelude.Int.{ℤ, pos, negsuc}
use vukernelprogramming.Memory.{write}

abbrev pub consbufsize : ℕ
consbufsize = 512

pub record Cons : Type 0 where
  pub buf : ℕ → ℕ
  pub rpos : ℕ
  pub wpos : ℕ

-- (uint8_t) c
abbrev pub byte_of : ℤ → ℕ
byte_of (pos n) = n % 256
byte_of (negsuc n) = 255 - n % 256

-- if (pos == CONSBUFSIZE) pos = 0;
abbrev pub wrap : ℕ → ℕ
wrap p = if p == consbufsize then 0 else p

-- cons.buf[cons.wpos++] = c; and the wrap
unfoldable pub store : ℤ → Cons → Cons
unfolding write
store c s = record s { buf = write s.buf s.wpos (byte_of c); wpos = wrap (s.wpos + 1) }

abbrev pub is_zero : ℤ → Bool
is_zero (pos n) = n == 0
is_zero (negsuc n) = false

abbrev pub is_minus_one : ℤ → Bool
is_minus_one (pos n) = false
is_minus_one (negsuc n) = n == 0

-- if (c == 0) continue;
unfoldable pub feed : ℤ → Cons → Cons
unfolding store
feed c s = if is_zero c then s else store c s

-- the next character, or 0 if none waits
unfoldable pub take_char : Cons → ℕ × Cons
take_char s =
    if s.rpos == s.wpos then (0, s) else (s.buf s.rpos, record s { rpos = wrap (s.rpos + 1) })

module _ {D : Type 0} where
  -- while ((c = (*proc)()) != -1)
  unfoldable pub cons_intr : ℕ → (D → ℤ × D) → D → Cons → Option (D × Cons)
  unfolding feed
  cons_intr zero proc d s = none
  cons_intr (suc f) proc d s =
      let rest = cons_intr f proc (proc d).1 (feed (proc d).0 s) in
      if is_minus_one (proc d).0 then some ((proc d).1, s) else rest

  -- if (serial_exists) cons_intr(serial_proc_data);
  unfoldable pub serial_intr : Bool → ℕ → (D → ℤ × D) → D → Cons → Option (D × Cons)
  serial_intr serial_exists f serial d s =
      if serial_exists then cons_intr f serial d s else some (d, s)

  -- the poll of both devices, and the next character
  unfoldable pub cons_getc : Bool → ℕ → (D → ℤ × D) → (D → ℤ × D) → D → Cons → Option (ℕ × D × Cons)
  unfolding serial_intr
  cons_getc serial_exists f serial kbd d s = elim (serial_intr serial_exists f serial d s) [
    | none ↦ none
    | some (d', s') ↦ elim (cons_intr f kbd d' s') [
      | none ↦ none
      | some (d'', s'') ↦ some ((take_char s'').0, d'', (take_char s'').1)
    ]
  ]

-- while ((c = cons_getc()) == 0); `getc` is cons_getc
unfoldable pub getchar : {X : Type 0} → ℕ → (X → Option (ℕ × X)) → X → Option (ℕ × X)
getchar zero getc x = none
getchar (suc f) getc x = elim (getc x) [
  | none ↦ none
  | some (c, x') ↦ let rest = getchar f getc x' in if c == 0 then rest else some (c, x')
]

-- used by readline: whatever the descriptor
abbrev pub iscons : ℕ → ℕ
iscons fdnum = 1

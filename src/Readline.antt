-- ===== src/Readline.antt =====
-- lib/readline.c: a line of input with echo and erase. The console is an argument: a state, what
-- getchar and cputchar do to it, and the two messages. `none` says that the fuel ran out,
-- or that getchar does not return.
pub mod Edit
use vukernelprogramming.Prelude.{
  ℕ, zero, suc, ◌+◌, ◌-◌, ◌%◌, ◌^◌, Bool, true, false, ◌&&◌, ◌||◌, Option, none, some, ltb, leb,
  ◌==◌, if◌then◌else◌,
}
use vukernelprogramming.Prelude.Int.{ℤ, pos, negsuc}
use vukernelprogramming.Memory.{Mem, write}

abbrev pub buflen : ℕ
buflen = 1024

-- a null pointer, with what the static buffer holds, or a pointer to the buffer
pub data Line : Type 0 where
  null : Mem → Line
  line : Mem → Line

-- what the loop does with a character
pub data Action : Type 0 where
  erase insert finish ignore : Action

-- i > 0 and i < BUFLEN - 1, for an int as its 32-bit pattern
abbrev pub above_zero : ℕ → Bool
above_zero i = ltb 0 i && ltb i (2 ^ 31)

abbrev pub below_last : ℕ → Bool
below_last i = ltb i (buflen - 1) || leb (2 ^ 31) i

-- the tests of the loop, at the number of characters in the buffer
unfoldable pub action : ℕ → ℕ → Action
action c i =
    if (c == 8 || c == 0x7f) && above_zero i
    then erase
    else if leb b' ' c && below_last i
    then insert
    else if c == 10 || c == 13
    then finish
    else ignore

-- what readline uses of the console
pub record Console : Type 1 where
  pub State : Type 0
  pub getchar : State → Option (ℤ × State)
  pub cputchar : ℕ → State → State
  pub prompt : State → State
  pub read_error : ℤ → State → State
  pub iscons : Bool

module _ (console : Console) where
  open console use {State, getchar, cputchar, prompt, read_error, iscons}

  -- if (echoing) cputchar(c);
  unfoldable pub echo : ℕ → State → State
  echo c e = if iscons then cputchar c e else e

  -- the branches of the loop, where i-- and i++ are those of an int; `again` is its next round
  unfoldable pub after :
      (ℕ → Mem → State → Option (Line × State))
      → Action
      → ℕ
      → ℕ
      → Mem
      → State
      → Option (Line × State)
  after again erase c i buf e = again ((i + 2 ^ 32 - 1) % 2 ^ 32) buf (echo 8 e)
  after again insert c i buf e = again ((i + 1) % 2 ^ 32) (write buf i (c % 256)) (echo c e)
  after again finish c i buf e = some (line (write buf i 0), echo 10 e)
  after again ignore c i buf e = again i buf e

  unfoldable pub readline_loop : ℕ → ℕ → Mem → State → Option (Line × State)
  unfolding after
  readline_loop zero i buf e = none
  readline_loop (suc f) i buf e = elim (getchar e) [
    | none ↦ none
    | some (negsuc n, e') ↦ some (null buf, read_error (negsuc n) e')
    | some (pos c, e') ↦ after (readline_loop f) (action c i) c i buf e'
  ]

  -- the buffer is static: it holds what the last call left in it
  unfoldable pub readline : ℕ → Bool → Mem → State → Option (Line × State)
  readline f has_prompt buf e = readline_loop f 0 buf (if has_prompt then prompt e else e)

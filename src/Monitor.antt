-- ===== src/Monitor.antt =====
-- kern/monitor.c: the command line and the loop of the kernel monitor. The commands are an
-- argument: the address of each name, and what the command does to the memory and the rest of the
-- machine. `none` says that the fuel ran out, or that a command does not return.
pub mod Words
pub mod Scan
pub mod Parse
pub mod Run
pub mod Commands
pub mod Backtrace
pub mod Session
pub mod Table
use vukernelprogramming.Prelude.{
  ℕ, zero, suc, ◌+◌, Bool, ◌||◌, Option, none, some, List, [], ◌∷◌, ◌++◌, ◌==◌, if◌then◌else◌,
  length,
}
use vukernelprogramming.Prelude.Int.{ℤ, pos, negsuc}
use vukernelprogramming.Memory.{Mem, write}
use vukernelprogramming.Str.Compare.{strcmp}

abbrev pub maxargs : ℕ
maxargs = 16

-- strchr(WHITESPACE, c), for a c other than 0
abbrev pub is_blank : ℕ → Bool
is_blank c = (c == 9) || ((c == 13) || ((c == 10) || (c == b' ')))

-- while (*buf && strchr(WHITESPACE, *buf)) *buf++ = 0;
unfoldable pub gobble : ℕ → Mem → ℕ → Option (Mem × ℕ)
unfolding write
gobble zero m buf = none
gobble (suc f) m buf =
    let rest = gobble f (write m buf 0) (buf + 1) in
    if is_blank (m buf) then rest else some (m, buf)

-- while (*buf && !strchr(WHITESPACE, *buf)) buf++;
unfoldable pub scan_arg : ℕ → Mem → ℕ → Option ℕ
scan_arg zero m buf = none
scan_arg (suc f) m buf =
    let rest = scan_arg f m (buf + 1) in if (m buf == 0) || is_blank (m buf) then some buf else rest

-- the arguments, or a line with too many
pub data Parsed : Type 0 where
  too_many : Mem → Parsed
  args : List ℕ → Mem → Parsed

-- the loop that splits the line, behind the arguments `argv`
unfoldable pub parse_args : ℕ → List ℕ → Mem → ℕ → Option Parsed
unfolding gobble scan_arg
parse_args zero argv m buf = none
parse_args (suc f) argv m buf = elim (gobble f m buf) [
  | none ↦ none
  | some (m', start) ↦
      let next : Option Parsed = elim (scan_arg f m' start) [
        | none ↦ none
        | some end ↦ parse_args f (argv ++ (start ∷ [])) m' end
      ] in
      if m' start == 0
      then some (args argv m')
      else if length argv + 1 == maxargs
      then some (too_many m')
      else next
]

-- struct command without its description: the name's address, and the function
abbrev pub Command : Type 0 → Type 0
Command E = ℕ × (List ℕ → Mem × E → Option (ℤ × Mem × E))

module _ {E : Type 0} where
  -- for (i = 0; i < NCOMMANDS; i++), with the message for an unknown command behind it
  unfoldable pub lookup :
      ℕ → (Mem → ℕ → E → E) → List (Command E) → ℕ → List ℕ → Mem × E → Option (ℤ × Mem × E)
  lookup f unknown [] name argv (m, e) = some (pos 0, m, unknown m name e)
  lookup f unknown ((c, func) ∷ commands) name argv x =
      let rest = lookup f unknown commands name argv x in
      elim (strcmp f x.0 name c) [
        | none ↦ none
        | some (pos zero) ↦ func argv x
        | some (pos (suc n)) ↦ rest
        | some (negsuc n) ↦ rest
      ]

  -- the two messages are arguments
  unfoldable pub runcmd :
      ℕ → (Mem → ℕ → E → E) → (E → E) → List (Command E) → ℕ → Mem × E → Option (ℤ × Mem × E)
  unfolding parse_args lookup
  runcmd f unknown many commands buf (m, e) = elim (parse_args f [] m buf) [
    | none ↦ none
    | some (too_many m') ↦ some (pos 0, m', many e)
    | some (args [] m') ↦ some (pos 0, m', e)
    | some (args (a ∷ argv) m') ↦ lookup f unknown commands a (a ∷ argv) (m', e)
  ]

  -- while (1): `next` is readline, which returns the address of a line, or `none` for NULL
  unfoldable pub monitor_loop :
      ℕ
      → (Mem × E → Option (Option ℕ × Mem × E))
      → (ℕ → Mem × E → Option (ℤ × Mem × E))
      → Mem × E
      → Option (Mem × E)
  monitor_loop zero next run x = none
  monitor_loop (suc f) next run x = elim (next x) [
    | none ↦ none
    | some (none, m, e) ↦ monitor_loop f next run (m, e)
    | some (some buf, m, e) ↦ elim (run buf (m, e)) [
      | none ↦ none
      | some (pos n, m', e') ↦ monitor_loop f next run (m', e')
      | some (negsuc n, m', e') ↦ some (m', e')
    ]
  ]

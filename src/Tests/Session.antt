-- ===== src/Tests/Session.antt =====
-- monitor of kern/monitor.c over a console with a list of keys.
use mathlib.Core.Option
use vukernelprogramming.Prelude.{
  ℕ, ◌+◌, ◌≤◌, ◌<◌, ◌≡◌, refl, true, some, Option, List, [], ◌∷◌, ◌++◌, arith, if◌then◌else◌, ◌==◌,
  inl, ◌⊎◌, length,
}
use vukernelprogramming.Prelude.Int.{pos, negsuc}
use vukernelprogramming.Memory.{Mem, write}
use vukernelprogramming.Str.Compare.{strcmp}
use vukernelprogramming.Monitor.{
  Command, runcmd, monitor_loop, parse_args, gobble, scan_arg, lookup,
}
use vukernelprogramming.Readline.{readline, readline_loop, action, after, echo}
use vukernelprogramming.Readline.Edit.{Waits}
use vukernelprogramming.Monitor.Words.{words, Strings}
use vukernelprogramming.Monitor.Run.{called}
use vukernelprogramming.Monitor.Session.{typed_line, read_line, run_line, resume, monitor}
use vukernelprogramming.Monitor.Session.Rounds.{monitor_loop-called}
use vukernelprogramming.Tests.Input.{list_console, list_input}

-- the names "h" at 200 and "k" at 300
abbrev memory : Mem
memory a = if a == 200 then b'h' else if a == 300 then b'k' else 0

-- the first command goes on, the second ends the loop
abbrev table : List (Command (List ℕ))
table = (200, λ argv x. some (pos 0, x.0, x.1)) ∷ (300, λ argv x. some (negsuc 0, x.0, x.1)) ∷ []

abbrev table_names : List (List ℕ)
table_names = (b'h' ∷ []) ∷ (b'k' ∷ []) ∷ []

abbrev line_keys : List ℕ
line_keys = b'k' ∷ b'j' ∷ 8 ∷ b' ' ∷ b'2' ∷ []

typed_run : words true (typed_line line_keys) ≡ (b'k' ∷ []) ∷ (b'2' ∷ []) ∷ []
unfolding action
typed_run = refl

monitor_loop-called_example :
    (e' : List ℕ) × Waits list_console list_input (b'h' ∷ []) e'
    × (length (words true (typed_line line_keys)) ≤ 15
        → (m' : Mem) × (argv : List ℕ) × Strings m' argv (words true (typed_line line_keys))
          × ((a : ℕ) → (a < 1000) ⊎ (1000 + 1024 ≤ a) → m' a ≡ memory a)
          × (monitor_loop 2
                (read_line list_console 1026 1000)
                (run_line list_console 1026 1000 (λ m a e. e) (λ e. e) table)
                (memory, line_keys ++ (10 ∷ b'h' ∷ []))
              ≡ resume list_console 1026 1000
                  (λ m a e. e)
                  (λ e. e)
                  table
                  1
                  (called
                    (λ m a e. e)
                    table
                    table_names
                    (words true (typed_line line_keys))
                    argv
                    (m', e'))))
    × (15 < length (words true (typed_line line_keys))
        → (m' : Mem) × (monitor_loop 2
              (read_line list_console 1026 1000)
              (run_line list_console 1026 1000 (λ m a e. e) (λ e. e) table)
              (memory, line_keys ++ (10 ∷ b'h' ∷ []))
            ≡ monitor_loop 1
                (read_line list_console 1026 1000)
                (run_line list_console 1026 1000 (λ m a e. e) (λ e. e) table)
                (m', e')))
monitor_loop-called_example =
    monitor_loop-called list_console list_input 1026 1000 (λ m a e. e) (λ e. e) table table_names 1
      line_keys 10 (b'h' ∷ []) memory (line_keys ++ (10 ∷ b'h' ∷ [])) (refl, tt) (ground arith)
      (ground arith) refl (omega arith) (omega arith)
      ((refl, (λ e. absurd (omega arith)), refl), ((refl, (λ e. absurd (omega arith)), refl), tt))
      (inl (omega arith), (inl (omega arith), tt))

-- an unknown command, an empty line, a command, and the command that ends the loop: what waits
-- behind it is left
abbrev console_of : Option (Mem × List ℕ) → Option (List ℕ)
console_of o = Option.map (λ x. x.1) o

monitor_run :
    console_of (
      monitor list_console 1026 1000
        (λ m a e. e)
        (λ e. e)
        table
        5
        (λ e. e)
        (memory, b'x' ∷ 10 ∷ 10 ∷ b'h' ∷ 10 ∷ b'k' ∷ 10 ∷ b'z' ∷ []))
    ≡ some (b'z' ∷ [])
unfolding monitor monitor_loop read_line readline readline_loop action after echo runcmd parse_args
    gobble scan_arg lookup strcmp write
monitor_run = refl

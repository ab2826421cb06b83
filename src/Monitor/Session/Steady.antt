-- ===== src/Monitor/Session/Steady.antt =====
-- The loop of monitor (kern/monitor.c) over the table of the kernel: it goes on after each line that
-- asks for no backtrace.
use vukernelprogramming.Prelude.{
  ℕ, ◌≤◌, ◌<◌, ◌≡◌, ◌≢◌, true, Option, some, List, [], ◌∷◌, ◌++◌, length, inr, inr,
}
use vukernelprogramming.Prelude.Int.{ℤ, pos}
use vukernelprogramming.Memory.{Mem}
use vukernelprogramming.Readline.{Console}
use vukernelprogramming.Readline.Edit.{HasInput, Waits, NoEnd, is_end}
use vukernelprogramming.Monitor.{Command, monitor_loop}
use vukernelprogramming.Monitor.Words.{words}
use vukernelprogramming.Printf.Conversions.{codes}
use vukernelprogramming.Kdebug.Eip.{Tables}
use vukernelprogramming.Monitor.Commands.{Call, Symbols}
use vukernelprogramming.Monitor.Table.{Texts, kernel_commands}
use vukernelprogramming.Monitor.Session.{typed_line, Bytes, read_line, run_line}

-- the keys of lines, each with the line end behind it, and what is typed behind them
abbrev pub keys_of : List (List ℕ × ℕ) → List ℕ → List ℕ
keys_of [] rest = rest
keys_of ((ks, c) ∷ lines) rest = ks ++ (c ∷ keys_of lines rest)

abbrev pub AsksNoBacktrace : List (List ℕ) → Type 0
AsksNoBacktrace [] = Unit {0}
AsksNoBacktrace (w ∷ ws) = w ≢ codes "backtrace"

-- bytes and then a line end, shorter than the fuel, with at most 15 words, whose first is not
-- backtrace
abbrev pub AreLines : ℕ → List (List ℕ × ℕ) → Type 0
AreLines f [] = Unit {0}
AreLines f ((ks, c) ∷ lines) =
    NoEnd ks
    × Bytes ks
    × (is_end c ≡ true)
    × (length ks < f)
    × (length (words true (typed_line ks)) ≤ 15)
    × AsksNoBacktrace (words true (typed_line ks))
    × AreLines f lines

module _ (console : Console) (has_input : HasInput console)
    (says : List Call → console.State → console.State) (read_ebp : console.State → ℕ)
    (tables : Tables) (search_fuel g : ℕ) (symbols : Symbols) (t : Texts)
    (unknown : Mem → ℕ → console.State → console.State)
    (says_keeps : (calls : List Call) (e : console.State) (left : List ℕ)
      → Waits console has_input left e
      → Waits console has_input left (says calls e))
    (unknown_keeps : (m : Mem) (a : ℕ) (e : console.State) (left : List ℕ)
      → Waits console has_input left e
      → Waits console has_input left (unknown m a e)) where
  open console use {State}

  abbrev commands : List (Command State)
  commands = kernel_commands says read_ebp tables search_fuel g symbols t

  -- a command that returned 0 left the memory and the waiting input as they were
  abbrev GoesOn : Mem → List ℕ → Option (ℤ × Mem × State) → Type 0
  GoesOn m left o = (e : State) × (o ≡ some (pos 0, m, e)) × Waits console has_input left e

  module _ (f place : ℕ) (many : State → State) where
    abbrev pub rounds_of : ℕ → Mem × State → Option (Mem × State)
    rounds_of rounds x =
        monitor_loop rounds (read_line console f place)
          (run_line console f place unknown many commands) x

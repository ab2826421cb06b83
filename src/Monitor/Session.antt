-- ===== src/Monitor/Session.antt =====
-- monitor of kern/monitor.c over readline (lib/readline.c) and runcmd. readline's static buffer
-- stands at an address of the memory. `none` says that the fuel ran out.
pub mod Line
pub mod Rounds
pub mod Steady
use vukernelprogramming.Prelude.{
  ℕ, ◌+◌, ◌-◌, ◌<◌, Option, none, some, List, [], ◌∷◌, true, if◌then◌else◌,
}
use vukernelprogramming.Prelude.Int.{ℤ, pos, negsuc}
use vukernelprogramming.Memory.{Mem, within}
use vukernelprogramming.Readline.{Console, buflen, null, line, readline}
use vukernelprogramming.Readline.Edit.{Typed, edit_all}
use vukernelprogramming.Monitor.{Command, runcmd, monitor_loop}

-- the memory `m` with the buffer at `place`
abbrev pub with_buffer : Mem → ℕ → Mem → Mem
with_buffer m place buf a = if within place buflen a then buf (a - place) else m a

-- the line in the order in which it is read, with `rest` behind it
abbrev pub in_order : Typed → List ℕ → List ℕ
in_order [] rest = rest
in_order (c ∷ cs) rest = in_order cs (c ∷ rest)

-- the line that the keys leave
abbrev pub typed_line : List ℕ → List ℕ
typed_line ks = in_order (edit_all ks []) []

abbrev pub Bytes : List ℕ → Type 0
Bytes [] = Unit {0}
Bytes (k ∷ ks) = (k < 256) × Bytes ks

module _ (console : Console) (f place : ℕ) where
  open console use {State}

  -- readline("K> ") on the memory with the buffer
  unfoldable pub read_line : Mem × State → Option (Option ℕ × Mem × State)
  read_line (m, e) = elim (readline console f true (λ i. m (place + i)) e) [
    | none ↦ none
    | some (null buf, e') ↦ some (none, with_buffer m place buf, e')
    | some (line buf, e') ↦ some (some place, with_buffer m place buf, e')
  ]

  module _ (unknown : Mem → ℕ → State → State) (many : State → State)
      (commands : List (Command State)) where
    abbrev pub run_line : ℕ → Mem × State → Option (ℤ × Mem × State)
    run_line buf x = runcmd f unknown many commands buf x

    -- the two messages, then the loop, up to a number of rounds
    unfoldable pub monitor : ℕ → (State → State) → Mem × State → Option (Mem × State)
    monitor rounds welcome (m, e) = monitor_loop rounds read_line run_line (m, welcome e)

    -- what the loop does behind a command
    abbrev pub resume : ℕ → Option (ℤ × Mem × State) → Option (Mem × State)
    resume rounds none = none
    resume rounds (some (pos n, m, e)) = monitor_loop rounds read_line run_line (m, e)
    resume rounds (some (negsuc n, m, e)) = some (m, e)

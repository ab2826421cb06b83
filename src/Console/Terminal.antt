-- ===== src/Console/Terminal.antt =====
-- The console of kern/console.c as readline (lib/readline.c) uses it: getchar over the input buffer
-- and both devices, with a serial port, and cputchar over the serial port, the printer and the
-- screen.
pub mod Input
use vukernelprogramming.Prelude.{ℕ, ◌+◌, Option, none, some, List, [], ◌∷◌, true}
use vukernelprogramming.Prelude.Int.{ℤ, pos}
use vukernelprogramming.Ports.{Ports}
use vukernelprogramming.Console.Ring.{Cons}
use vukernelprogramming.Console.Ring.Wait.{console_getchar}
use vukernelprogramming.Console.Init.{serial_proc_data}
use vukernelprogramming.Console.Keyboard.{kbd_proc_data}
use vukernelprogramming.Console.Output.{Screen, cons_putc}
use vukernelprogramming.Printf.Number.Digits.{puts}
use vukernelprogramming.Readline.{Console}

pub record Terminal (D : Type 0) : Type 0 where
  pub cons : Cons
  pub screen : Screen
  pub device : D
  pub shift : ℕ

module _ (ports : Ports) (print : ports.Device → ports.Device) where
  open ports use {Device}

  -- the interrupt routines on the devices and the modifiers of the keyboard
  abbrev pub serial : Device × ℕ → ℤ × (Device × ℕ)
  serial (d, shift) = let (c, d') = serial_proc_data ports d in (c, (d', shift))

  abbrev pub kbd : Device × ℕ → ℤ × (Device × ℕ)
  kbd x = kbd_proc_data ports print x

  -- with fuel `f` for a poll, and `g` polls
  unfoldable pub terminal_getchar : ℕ → ℕ → Terminal Device → Option (ℤ × Terminal Device)
  terminal_getchar f g t = elim (console_getchar serial kbd f g (t.device, t.shift) (t.cons)) [
    | none ↦ none
    | some (c, ((d, shift'), s)) ↦ some (pos c, record t { cons = s; device = d; shift = shift' })
  ]

  unfoldable pub cputchar : ℕ → Terminal Device → Terminal Device
  cputchar c t =
      let (s, d) = cons_putc ports c (t.screen, t.device) in record t { screen = s; device = d }

  -- the prompt is printed by cputchar; the message of a failed read is an argument
  abbrev pub kernel_console : ℕ → ℕ → List ℕ → (ℤ → Terminal Device → Terminal Device) → Console
  kernel_console f g text failed = record {
    State = Terminal Device;
    getchar = terminal_getchar f g;
    cputchar = cputchar;
    prompt = puts cputchar text;
    read_error = failed;
    iscons = true;
  }

-- ===== src/Tests/Terminal.antt =====
-- readline over the console of kern/console.c, with scan codes at the keyboard.
use vukernelprogramming.Prelude.{
  ℕ, ◌<◌, ◌≡◌, refl, true, List, [], ◌∷◌, arith, length, ◌==◌, if◌then◌else◌, Bool-cases, inl, inr,
  ◌%◌, ◌^◌,
}
use vukernelprogramming.Ports.{Ports}
use vukernelprogramming.Console.Ring.Poll.{accepted, Yields, stop}
use vukernelprogramming.Console.Ring.Wait.{Polled, polled}
use vukernelprogramming.Console.Init.{serial_proc_data}
use vukernelprogramming.Console.Keyboard.{decode}
use vukernelprogramming.Console.Keyboard.Maps.{shiftcode, togglecode, charcode}
use vukernelprogramming.Console.Keyboard.Poll.{
  IsKeyboard, decoded, shift_after, length-decoded, kbd_proc_data-Yields,
}
use vukernelprogramming.Console.Output.{
  Screen, attribute, serial_putc, lpt_putc, cga_putc, cons_putc, after_switch, cons_putc_plain,
  spaces, cursor,
}
use vukernelprogramming.Console.Terminal.{Terminal, serial, kbd}
use vukernelprogramming.Console.Terminal.Input.{
  IsTerminal, Ready, console, terminal_input, readline-typed,
}
use vukernelprogramming.Readline.{readline}
use vukernelprogramming.Readline.Edit.{Entered, edit_all}
use vukernelprogramming.Tests.Input.{code_status, first_code, codes_left}

-- a keyboard with a list of scan codes; the serial port has no input, and it and the printer are
-- always ready
abbrev key_ports : Ports
key_ports = record {
  Device = List ℕ;
  inb = λ port d.
      if port == 0x60
      then (first_code d, codes_left d)
      else if port == 0x64
      then (code_status d, d)
      else if port == 0x3FD
      then (0x20, d)
      else (0x80, d);
  outb = λ port v d. d;
}

abbrev key_board : IsKeyboard key_ports (λ d. d)
key_board = record {
  waiting = λ d. d;
  none_wait = λ d w. rw w (refl, refl);
  some_wait = λ d c cs w. rw w (omega arith, refl);
  data_port = λ d c cs w. rw w (refl, refl);
  keeps = λ d. refl;
}

output_same : (c : ℕ) (s : Screen) (d : List ℕ) → (cons_putc key_ports c (s, d)).1 ≡ d
unfolding cons_putc cga_putc serial_putc lpt_putc after_switch cons_putc_plain spaces cursor
output_same c s d = elim (Bool-cases (attribute c % 2 ^ 8 == 9)) [
  | inl tab ↦ rw tab refl
  | inr other ↦ rw other refl
]

abbrev waiting_bytes : List ℕ × ℕ → List ℕ
waiting_bytes (d, shift) = accepted (decoded d shift)

abbrev Short : List ℕ × ℕ → Type 0
Short (d, shift) = length d < 20

serial_silent : (x : List ℕ × ℕ) → Yields (serial key_ports (λ d. d)) x [] x
unfolding serial_proc_data
serial_silent x = stop refl

poll_all :
    (x : List ℕ × ℕ)
    → Short x
    → (x' : List ℕ × ℕ) × Polled
        (serial key_ports (λ d. d))
        (kbd key_ports (λ d. d))
        20
        x
        (waiting_bytes x)
        x'
      × (waiting_bytes x' ≡ [])
      × Short x'
poll_all (d, shift) short =
    let (d', w, y) = kbd_proc_data-Yields key_ports (λ d. d) key_board d d shift refl in
    let n = length-decoded d shift in
    (
      (d', shift_after d shift),
      polled (serial_silent (d, shift)) y (omega arith) (omega arith),
      rw w refl,
      rw w (omega arith),
    )

output_keeps :
    (c : ℕ) (s : Screen) (d : List ℕ) (shift : ℕ)
    → Short (d, shift)
    → (waiting_bytes ((cons_putc key_ports c (s, d)).1, shift) ≡ waiting_bytes (d, shift))
      × Short ((cons_putc key_ports c (s, d)).1, shift)
output_keeps c s d shift short = let e = output_same c s d in rw e (refl, short)

abbrev key_terminal : IsTerminal key_ports (λ d. d) 20
key_terminal = record {
  pending = waiting_bytes;
  Enough = Short;
  polls = poll_all;
  output = output_keeps;
}

-- 'h' and Enter on the keyboard, and nothing in the buffer
abbrev typing : Terminal (List ℕ)
typing = record {
  cons = record { buf = λ i. 0; rpos = 0; wpos = 0 };
  screen = record { crt_buf = λ i. 0; crt_pos = 0; addr_6845 = 0x3D4 };
  device = 0x23 ∷ 0xa3 ∷ 0x1c ∷ 0x9c ∷ [];
  shift = 0;
}

waiting_run : waiting_bytes (typing.device, 0) ≡ b'h' ∷ 10 ∷ []
unfolding decode shiftcode togglecode charcode
waiting_run = refl

typing-Ready : Ready key_ports (λ d. d) 20 key_terminal 0 [] (λ n t. t) typing
typing-Ready = (
  omega arith,
  record { reads = omega arith; writes = omega arith },
  rw waiting_run (omega arith),
  rw waiting_run (omega arith, (omega arith, tt)),
)

readline-typed_example :
    Entered
      (console key_ports (λ d. d) 20 key_terminal 0 [] (λ n t. t))
      (terminal_input key_ports (λ d. d) 20 key_terminal 0 [] (λ n t. t))
      []
      (edit_all (b'h' ∷ []) [])
      (readline (console key_ports (λ d. d) 20 key_terminal 0 [] (λ n t. t)) 2 true (λ a. 0) typing)
readline-typed_example =
    readline-typed key_ports (λ d. d) 20 key_terminal 0 [] (λ n t. t) 2 true (b'h' ∷ []) 10 []
      (λ a. 0) typing typing-Ready waiting_run (ground arith) refl (omega arith)

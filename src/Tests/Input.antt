-- ===== src/Tests/Input.antt =====
-- kern/console.c and lib/readline.c with small devices.
use vukernelprogramming.Prelude.{
  ℕ, Option, ◌+◌, ◌≤◌, ◌<◌, ◌≡◌, ◌≢◌, ◌↔◌, refl, true, some, List, [], ◌∷◌, ◌++◌, arith, ◌==◌,
  if◌then◌else◌,
}
use vukernelprogramming.Prelude.Int.{ℤ, pos, negsuc}
use Prim.Native.Nat.{bit_and}
use vukernelprogramming.Ports.{Ports}
use vukernelprogramming.Console.Ring.{Cons, store, cons_intr}
use vukernelprogramming.Console.Ring.Queue.{IsValid, contents, contents-store_full}
use vukernelprogramming.Console.Ring.Poll.{accepted, Yields, stop, more, cons_intr-contents}
use vukernelprogramming.Console.Keyboard.{decode}
use vukernelprogramming.Console.Keyboard.Maps.{e0esc, shiftcode, togglecode, charcode}
use vukernelprogramming.Console.Keyboard.Decode.{ctl_alt_e0, decode_keeps}
use vukernelprogramming.Console.Keyboard.Poll.{
  IsKeyboard, decoded, shift_after, kbd_intr, kbd_intr-decodes,
}
use vukernelprogramming.Console.Output.{Screen, cons_putc}
use vukernelprogramming.Console.Output.Bounds.{Within, cons_putc-Safe}
use vukernelprogramming.Readline.{Console, readline}
use vukernelprogramming.Readline.Edit.{HasInput, Entered, edit_all, readline-edit}

-- the indices are about to wrap
abbrev two : Cons
two = record { buf = λ i. i; rpos = 510; wpos = 0 }

two-IsValid : IsValid two
two-IsValid = record { reads = omega arith; writes = omega arith }

abbrev full : Cons
full = record { buf = λ i. i; rpos = 7; wpos = 6 }

contents-store_full_example : contents (store (pos 65) full) ≡ []
contents-store_full_example =
    contents-store_full (pos 65) full (record { reads = omega arith; writes = omega arith }) refl

-- a device that holds a list of ints
abbrev device : List ℤ → ℤ × List ℤ
device [] = (negsuc 0, [])
device (c ∷ cs) = (c, cs)

typed : Yields device (pos 65 ∷ pos 0 ∷ pos 66 ∷ []) (pos 65 ∷ pos 0 ∷ pos 66 ∷ []) []
typed = more refl refl (more refl refl (more refl refl (stop refl)))

cons_intr-contents_example :
    (s' : Cons) × (cons_intr 4 device (pos 65 ∷ pos 0 ∷ pos 66 ∷ []) two ≡ some ([], s'))
    × IsValid s'
    × (contents s' ≡ contents two ++ accepted (pos 65 ∷ pos 0 ∷ pos 66 ∷ []))
cons_intr-contents_example =
    cons_intr-contents device 4 two typed two-IsValid (omega arith) (omega arith)

abbrev key_a : ℕ
key_a = 0x1e

decode_keeps_example :
    ((decode key_a 1).shift < 128)
    × ((decode key_a 1).code < 256)
    × (key_a ≢ 224 → bit_and (decode key_a 1).shift e0esc ≡ 0)
    × (128 ≤ key_a → (decode key_a 1).code ≡ 0)
    × (((decode key_a 1).reboot ≡ true) ↔ ((key_a ≡ 0x53) × (ctl_alt_e0 1 ≡ true)))
decode_keeps_example = decode_keeps key_a 1 (omega arith) (omega arith)

-- a controller with a list of scan codes
abbrev pub code_status : List ℕ → ℕ
code_status [] = 0
code_status (c ∷ cs) = 1

abbrev pub first_code : List ℕ → ℕ
first_code [] = 0
first_code (c ∷ cs) = c

abbrev pub codes_left : List ℕ → List ℕ
codes_left [] = []
codes_left (c ∷ cs) = cs

abbrev keys : Ports
keys = record {
  Device = List ℕ;
  inb = λ port d. if port == 0x64 then (code_status d, d) else (first_code d, codes_left d);
  outb = λ port v d. d;
}

abbrev keyboard : IsKeyboard keys (λ d. d)
keyboard = record {
  waiting = λ d. d;
  none_wait = λ d w. rw w (refl, refl);
  some_wait = λ d c cs w. rw w (omega arith, refl);
  data_port = λ d c cs w. rw w (refl, refl);
  keeps = λ d. refl;
}

-- 'h', then shift held, 'i' with its release, and shift released
abbrev typed_codes : List ℕ
typed_codes = 0x23 ∷ 0xa3 ∷ 0x2a ∷ 0x17 ∷ 0x97 ∷ 0xaa ∷ []

decoded_run : accepted (decoded typed_codes 0) ≡ b'h' ∷ b'I' ∷ []
unfolding decode shiftcode togglecode charcode
decoded_run = refl

kbd_intr-decodes_example :
    (d' : List ℕ) × (s' : Cons) × (kbd_intr keys (λ d. d) 7 (typed_codes, 0) two
      ≡ some ((d', shift_after typed_codes 0), s'))
    × (d' ≡ [])
    × IsValid s'
    × (contents s' ≡ contents two ++ accepted (decoded typed_codes 0))
kbd_intr-decodes_example =
    kbd_intr-decodes keys (λ d. d) keyboard 7 typed_codes typed_codes 0 two refl two-IsValid
      (omega arith) (rw decoded_run (omega arith))

-- ports whose devices are always ready, and count the writes
abbrev ready : Ports
ready = record { Device = ℕ; inb = λ port d. (255, d); outb = λ port v d. d + 1 }

-- the cursor is in the last column of the last row
abbrev last_cell : Screen
last_cell = record { crt_buf = λ i. 0; crt_pos = 1999; addr_6845 = 0x3D4 }

cons_putc-Safe_example : Within 2000 last_cell (cons_putc ready b'A' (last_cell, 0)).0
cons_putc-Safe_example = cons_putc-Safe ready b'A' last_cell 0 (omega arith)

-- a console that reads a list of characters, and shows none
abbrev list_getchar : List ℕ → Option (ℤ × List ℕ)
list_getchar [] = some (negsuc 2, [])
list_getchar (c ∷ cs) = some (pos c, cs)

abbrev pub list_console : Console
list_console = record {
  State = List ℕ;
  getchar = list_getchar;
  cputchar = λ c e. e;
  prompt = λ e. e;
  read_error = λ n e. e;
  iscons = true;
}

pub list_first :
    (e : List ℕ) (c : ℕ) (cs : List ℕ)
    → Unit {0}
    → e ≡ c ∷ cs
    → (e' : List ℕ) × (list_getchar e ≡ some (pos c, e')) × (e' ≡ cs) × Unit {0}
list_first e c cs r h = (cs, rw h refl, refl, tt)

abbrev pub list_input : HasInput list_console
list_input = record {
  input = λ e. e;
  IsReady = λ e. Unit {0};
  first = list_first;
  output_keeps = λ c e r. (refl, tt);
  prompt_keeps = λ e r. (refl, tt);
}

-- 'h', a wrong key, its erasure, 'i' and the line end
readline-edit_example :
    Entered list_console list_input []
      (edit_all (b'h' ∷ b'o' ∷ 8 ∷ b'i' ∷ []) [])
      (readline list_console 5 true (λ a. 0) (b'h' ∷ b'o' ∷ 8 ∷ b'i' ∷ 10 ∷ []))
readline-edit_example =
    readline-edit list_console list_input 5 true (b'h' ∷ b'o' ∷ 8 ∷ b'i' ∷ []) 10 [] (λ a. 0)
      (b'h' ∷ b'o' ∷ 8 ∷ b'i' ∷ 10 ∷ []) (refl, tt) (ground arith) refl (omega arith)

-- ===== src/Console/Terminal/Input.antt =====
-- The console takes its input from the buffer and the devices in order, and output takes none.
use mathlib.Core.List.{append-nil}
use vukernelprogramming.Prelude.{
  ℕ, suc, ◌≤◌, ◌<◌, ◌≡◌, ◌≢◌, refl, Bool, true, some, List, [], ◌∷◌, ◌++◌, arith, length, ◌∙◌, ap,
  sym, subst, length-append,
}
use vukernelprogramming.Prelude.Int.{ℤ, pos}
use vukernelprogramming.Memory.{Mem}
use vukernelprogramming.Ports.{Ports}
use vukernelprogramming.Console.Ring.{Cons, take_char}
use vukernelprogramming.Console.Ring.Queue.{IsValid, contents, take_char-IsValid}
use vukernelprogramming.Console.Ring.Wait.{
  Polled, poll_console, poll_console-append, getchar-stop, take_char-head,
}
use vukernelprogramming.Console.Output.{Screen, cons_putc}
use vukernelprogramming.Printf.Number.Digits.{puts}
use vukernelprogramming.Readline.{Console, readline}
use vukernelprogramming.Readline.Edit.{HasInput, NoEnd, is_end, Entered, edit_all, readline-edit}
use vukernelprogramming.Console.Terminal.{
  Terminal, serial, kbd, terminal_getchar, cputchar, kernel_console,
}

abbrev pub NoZero : List ℕ → Type 0
NoZero [] = Unit {0}
NoZero (c ∷ cs) = (c ≢ 0) × NoZero cs

module _ (ports : Ports) (print : ports.Device → ports.Device) (f : ℕ) where
  open ports use {Device}

  -- the bytes that the serial port and the keyboard have: in a state that the fuel of a poll is
  -- enough for, a poll brings them all, and output leaves them alone
  pub record IsTerminal : Type 1 where
    pub pending : Device × ℕ → List ℕ
    pub Enough : Device × ℕ → Type 0
    pub polls :
        (x : Device × ℕ)
        → Enough x
        → (x' : Device × ℕ) × Polled (serial ports print) (kbd ports print) f x (pending x) x'
          × (pending x' ≡ [])
          × Enough x'
    pub output :
        (c : ℕ) (s : Screen) (d : Device) (shift : ℕ)
        → Enough (d, shift)
        → (pending ((cons_putc ports c (s, d)).1, shift) ≡ pending (d, shift))
          × Enough ((cons_putc ports c (s, d)).1, shift)

  module _ (terminal : IsTerminal) (g : ℕ) (prompt : List ℕ)
      (failed : ℤ → Terminal Device → Terminal Device) where
    open terminal use {pending, Enough, polls, output}

    -- the bytes in the buffer, and behind them those of the devices
    abbrev pub typed : Terminal Device → List ℕ
    typed t = contents (t.cons) ++ pending (t.device, t.shift)

    abbrev pub Ready : Terminal Device → Type 0
    Ready t =
        Enough (t.device, t.shift) × IsValid (t.cons) × (length (typed t) ≤ 511) × NoZero (typed t)

    terminal_getchar-run :
        (t : Terminal Device) (c : ℕ) (x' : Device × ℕ) (s' : Cons)
        → poll_console (serial ports print) (kbd ports print) f ((t.device, t.shift), t.cons)
          ≡ some (c, (x', s'))
        → c ≢ 0
        → terminal_getchar ports print f (suc g) t
          ≡ some (pos c, record t { cons = s'; device = x'.0; shift = x'.1 })
    unfolding terminal_getchar
    terminal_getchar-run t c x' s' run nz =
        rw
          (
            terminal_getchar,
            getchar-stop g c (poll_console (serial ports print) (kbd ports print) f)
                ((t.device, t.shift), t.cons) (x', s') run nz,
          )
          refl

    pub terminal_getchar-first :
        (t : Terminal Device) (c : ℕ) (cs : List ℕ)
        → Ready t
        → typed t ≡ c ∷ cs
        → (t' : Terminal Device) × (terminal_getchar ports print f (suc g) t ≡ some (pos c, t'))
          × (typed t' ≡ cs)
          × Ready t'
    terminal_getchar-first t c cs (ok, v, room, nonzero) e =
        let (x', p, empty, ok') = polls (t.device, t.shift) ok in
        let split = length-append (contents (t.cons)) (pending (t.device, t.shift)) in
        let (s', run, v', e') =
          poll_console-append (serial ports print) (kbd ports print) f (t.cons) p v
            (omega (arith, split)) in
        let nonzero' : NoZero (c ∷ cs) = subst NoZero e nonzero in
        let nz = nonzero'.0 in
        let len = ap length e in
        let (head, tail) =
          take_char-head (serial ports print) (kbd ports print) f s' c cs v' (e' ∙ e) in
        let left : contents (take_char s').1 ++ pending x' ≡ cs =
          ap (λ l. contents (take_char s').1 ++ l) empty
          ∙ append-nil (contents (take_char s').1)
          ∙ tail in
        (
          record t { cons = (take_char s').1; device = x'.0; shift = x'.1 },
          terminal_getchar-run t ((take_char s').0) x' (take_char s').1 run
                (subst (λ n. n ≢ 0) (sym head) nz)
              ∙ ap
                  (λ n.
                    some (pos n, record t { cons = (take_char s').1; device = x'.0; shift = x'.1 }))
                  head,
          left,
          (ok', take_char-IsValid s' v', rw left (omega (arith, len)), rw left (nonzero'.1)),
        )

    -- a state with the same buffer and the same bytes
    pub cputchar-Ready :
        (c : ℕ) (t : Terminal Device)
        → Ready t
        → (typed (cputchar ports print c t) ≡ typed t) × Ready (cputchar ports print c t)
    unfolding cputchar
    cputchar-Ready c t (ok, v, room, nonzero) =
        let (same, ok') = output c (t.screen) (t.device) (t.shift) ok in
        let e = ap (λ l. contents (t.cons) ++ l) same in
        (e, (ok', v, subst (λ l. length l ≤ 511) (sym e) room, subst NoZero (sym e) nonzero))

    pub puts-Ready :
        (cs : List ℕ) (t : Terminal Device)
        → Ready t
        → (typed (puts (cputchar ports print) cs t) ≡ typed t)
          × Ready (puts (cputchar ports print) cs t)
    puts-Ready [] t r = (refl, r)
    puts-Ready (c ∷ cs) t r =
        let (e, r') = cputchar-Ready c t r in
        let (e', r'') = puts-Ready cs (cputchar ports print c t) r' in (e' ∙ e, r'')

    abbrev pub console : Console
    console = kernel_console ports print f (suc g) prompt failed

    abbrev pub terminal_input : HasInput console
    terminal_input = record {
      input = typed;
      IsReady = Ready;
      first = terminal_getchar-first;
      output_keeps = cputchar-Ready;
      prompt_keeps = puts-Ready prompt;
    }

    -- Let the bytes in the input buffer and behind them those of the two devices be the characters
    -- `ks`, none of them a line end, then a line end, then `rest`, at most 511 bytes and none of
    -- them 0. With a poll for a character and more fuel than `ks`, readline over the console's
    -- getchar and cputchar returns the line that the characters leave, and the bytes `rest` wait in
    -- the buffer and the devices.
    pub readline-typed :
        (k : ℕ) (has_prompt : Bool) (ks : List ℕ) (c : ℕ) (rest : List ℕ) (buf : Mem)
        (t : Terminal Device)
        → Ready t
        → typed t ≡ ks ++ (c ∷ rest)
        → NoEnd ks
        → is_end c ≡ true
        → length ks < k
        → Entered console terminal_input rest (edit_all ks []) (readline console k has_prompt buf t)
    readline-typed k has_prompt ks c rest buf t r e n end fuel =
        readline-edit console terminal_input k has_prompt ks c rest buf t (e, r) n end fuel

-- ===== src/Console/Keyboard/Poll.antt =====
-- kbd_intr of kern/console.c, and the keyboard controller behind it. The controller (an 8042) is
-- not code of the repository: what kbd_proc_data relies on is the record `IsKeyboard`.
use Prim.Native.Nat.{bit_and}
use vukernelprogramming.Prelude.{
  ℕ, suc, ◌+◌, ◌≤◌, ◌<◌, ◌≡◌, ◌≢◌, refl, Bool, true, false, Option, some, List, [], ◌∷◌, ◌++◌,
  arith, length, ◌==◌, ap, ◌∙◌,
}
use vukernelprogramming.Prelude.Int.{ℤ, pos, negsuc}
use vukernelprogramming.Ports.{Ports}
use vukernelprogramming.Console.Keyboard.{decode, kbd_proc_data, reboot_if}
use vukernelprogramming.Console.Ring.{Cons, cons_intr}
use vukernelprogramming.Console.Ring.Queue.{IsValid, count, contents}
use vukernelprogramming.Console.Ring.Poll.{accepted, Yields, stop, more, cons_intr-contents}

-- the scan codes that wait: bit 0 of port 0x64 tells whether there is one, and port 0x60 has the
-- first; the message and the reset port leave them alone
pub record IsKeyboard (ports : Ports) (print : ports.Device → ports.Device) : Type 0 where
  pub waiting : ports.Device → List ℕ
  pub none_wait :
      (d : ports.Device)
      → waiting d ≡ []
      → (bit_and (ports.inb 0x64 d).0 1 ≡ 0) × (waiting (ports.inb 0x64 d).1 ≡ [])
  pub some_wait :
      (d : ports.Device) (c : ℕ) (cs : List ℕ)
      → waiting d ≡ c ∷ cs
      → (bit_and (ports.inb 0x64 d).0 1 ≢ 0) × (waiting (ports.inb 0x64 d).1 ≡ c ∷ cs)
  pub data_port :
      (d : ports.Device) (c : ℕ) (cs : List ℕ)
      → waiting d ≡ c ∷ cs
      → ((ports.inb 0x60 d).0 ≡ c) × (waiting (ports.inb 0x60 d).1 ≡ cs)
  pub keeps : (d : ports.Device) → waiting (ports.outb 0x92 3 (print d)) ≡ waiting d

-- the characters of scan codes in order, and the modifiers behind them
abbrev pub decoded : List ℕ → ℕ → List ℤ
decoded [] shift = []
decoded (c ∷ cs) shift = pos (decode c shift).code ∷ decoded cs (decode c shift).shift

abbrev pub shift_after : List ℕ → ℕ → ℕ
shift_after [] shift = shift
shift_after (c ∷ cs) shift = shift_after cs (decode c shift).shift

pub length-decoded : (cs : List ℕ) (shift : ℕ) → length (decoded cs shift) ≡ length cs
length-decoded [] shift = refl
length-decoded (c ∷ cs) shift = ap suc (length-decoded cs (decode c shift).shift)

module _ (ports : Ports) (print : ports.Device → ports.Device) where
  open ports use {Device}

  -- cons_intr(kbd_proc_data)
  unfoldable pub kbd_intr : ℕ → Device × ℕ → Cons → Option ((Device × ℕ) × Cons)
  kbd_intr f x s = cons_intr f (kbd_proc_data ports print) x s

  module _ (keyboard : IsKeyboard ports print) where
    open keyboard use {waiting, none_wait, some_wait, data_port, keeps}

    reboot_if-keeps : (b : Bool) (d : Device) → waiting (reboot_if ports b print d) ≡ waiting d
    unfolding reboot_if
    reboot_if-keeps true d = keeps d
    reboot_if-keeps false d = refl

    kbd_proc_data-none :
        (d : Device) (shift : ℕ)
        → waiting d ≡ []
        → (d' : Device) × (kbd_proc_data ports print (d, shift) ≡ (negsuc 0, (d', shift)))
          × (waiting d' ≡ [])
    unfolding kbd_proc_data
    kbd_proc_data-none d shift w =
        let (z, w') = none_wait d w in
        let e : (bit_and (ports.inb 0x64 d).0 1 == 0) ≡ true = ground arith in
        ((ports.inb 0x64 d).1, rw (kbd_proc_data, e) refl, w')

    kbd_proc_data-some :
        (d : Device) (shift c : ℕ) (cs : List ℕ)
        → waiting d ≡ c ∷ cs
        → (d' : Device) × (kbd_proc_data ports print (d, shift)
            ≡ (pos (decode c shift).code, (d', (decode c shift).shift)))
          × (waiting d' ≡ cs)
    unfolding kbd_proc_data
    kbd_proc_data-some d shift c cs w =
        let (z, w') = some_wait d c cs w in
        let (got, left) = data_port (ports.inb 0x64 d).1 c cs w' in
        let e : (bit_and (ports.inb 0x64 d).0 1 == 0) ≡ false = ground arith in
        (
          reboot_if ports (decode c shift).reboot print (ports.inb 0x60 (ports.inb 0x64 d).1).1,
          rw (kbd_proc_data, e, got) refl,
          reboot_if-keeps (decode c shift).reboot (ports.inb 0x60 (ports.inb 0x64 d).1).1 ∙ left,
        )

    pub kbd_proc_data-Yields :
        (cs : List ℕ) (d : Device) (shift : ℕ)
        → waiting d ≡ cs
        → (d' : Device) × (waiting d' ≡ [])
          × Yields
              (kbd_proc_data ports print)
              (d, shift)
              (decoded cs shift)
              (d', shift_after cs shift)
    kbd_proc_data-Yields [] d shift w =
        let (d', e, w') = kbd_proc_data-none d shift w in (d', w', stop e)
    kbd_proc_data-Yields (c ∷ cs) d shift w =
        let (d1, e, w1) = kbd_proc_data-some d shift c cs w in
        let (d', w', y) = kbd_proc_data-Yields cs d1 (decode c shift).shift w1 in
        (d', w', more e refl y)

    -- If the scan codes `cs` wait at the keyboard and the queue has room for their characters, an
    -- interrupt of the keyboard, with more fuel than codes, ends with no code left: behind what
    -- the queue held stand the characters of the codes in order, each decoded in the modifier state
    -- that the codes before it leave, without the zeros, and the last state is kept.
    pub kbd_intr-decodes :
        (f : ℕ) (cs : List ℕ) (d : Device) (shift : ℕ) (s : Cons)
        → waiting d ≡ cs
        → IsValid s
        → length cs < f
        → count s + length (accepted (decoded cs shift)) ≤ 511
        → (d' : Device) × (s' : Cons) × (kbd_intr f (d, shift) s
            ≡ some ((d', shift_after cs shift), s'))
          × (waiting d' ≡ [])
          × IsValid s'
          × (contents s' ≡ contents s ++ accepted (decoded cs shift))
    unfolding kbd_intr
    kbd_intr-decodes f cs d shift s w v fuel room =
        let (d', w', y) = kbd_proc_data-Yields cs d shift w in
        let n = length-decoded cs shift in
        let (s', run, v', e) =
          cons_intr-contents (kbd_proc_data ports print) f s y v (omega arith) room in
        (d', s', run, w', v', e)

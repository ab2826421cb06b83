-- ===== src/Tests/Panics.antt =====
-- kern/init.c with a monitor that returns at once, and devices that answer each read with the same byte.
use vukernelprogramming.Prelude.{
  ℕ, ◌+◌, ◌<◌, ◌≤◌, ◌⊎◌, none, ◌≡◌, refl, false, Option, some, ◌==◌, if◌then◌else◌, [], ◌∷◌, ◌++◌,
  arith,
}
use vukernelprogramming.Prelude.Int.{ℤ, pos, negsuc}
use vukernelprogramming.Ports.{Ports}
use vukernelprogramming.Boot.{word32}
use vukernelprogramming.Console.Ring.{Cons}
use vukernelprogramming.Console.Ring.Queue.{IsValid, contents}
use vukernelprogramming.Console.Ring.Poll.{stop, more}
use vukernelprogramming.Console.Ring.Wait.{
  console_getchar, ready, quiet, Polled, polled, getchar-waits,
}
use vukernelprogramming.Init.{Kernel, Layout, monitor_forever, _panic}
use vukernelprogramming.Init.Panics.{panic_events, panic-first}

-- the device counts the writes
abbrev counter : Ports
counter = record { Device = ℕ; inb = λ port d. (0xFF, d); outb = λ port v d. d + 1 }

-- memory full of ones
abbrev boot_state : Kernel ℕ
boot_state = record {
  mem = λ a. 1;
  device = 0;
  display = record { crt_buf = 0; crt_pos = 0; addr_6845 = 0 };
  serial_exists = false;
  memory = record { npages = 0; npages_basemem = 0 };
  events = [];
}

abbrev at_once : Kernel ℕ → Option (Kernel ℕ)
at_once k = some k

abbrev layout : Layout
layout = record {
  edata = 0xf0110000;
  end_ = 0xf0111000;
  panicstr = 0xf0110100;
  pmap_file = 0xf0102000;
  not_finished_text = 0xf0102040;
}

abbrev cleared_state : Kernel ℕ
cleared_state = record boot_state { mem = λ a. 0 }

-- the address 0x2000 stands at 0x1000
abbrev panicked_state : Kernel ℕ
panicked_state = record boot_state { mem = λ a. if a == 0x1001 then 0x20 else 0 }

-- a monitor that does not return
abbrev stays : Kernel ℕ → Option (Kernel ℕ)
stays k = none

panic-first_example :
    (told_k : Kernel ℕ) × (told_k.events ≡ [] ++ panic_events 7 20 0x2000 [])
    × (word32 told_k.mem 0x1000 ≡ 0x2000)
    × ((a : ℕ) → (a < 0x1000) ⊎ (0x1000 + 4 ≤ a) → told_k.mem a ≡ 0)
    × (_panic stays 2 0x1000 7 20 0x2000 [] cleared_state ≡ monitor_forever stays 2 told_k)
    × (_panic stays 5 0x1000 8 30 0x3000 [] panicked_state ≡ monitor_forever stays 5 panicked_state)
panic-first_example =
    panic-first stays 0x1000 2 5 7 20 0x2000 8 30 0x3000 [] [] cleared_state panicked_state refl
      (λ e. absurd (omega arith)) (omega arith) refl

-- a serial port that is silent for two polls and then has two bytes; the keyboard is silent
abbrev port : ℕ → ℤ × ℕ
port d =
    if d == 0
    then (negsuc 0, 1)
    else if d == 1
    then (negsuc 0, 2)
    else if d == 2
    then (pos 66, 3)
    else if d == 3
    then (pos 65, 4)
    else (negsuc 0, d)

abbrev keys : ℕ → ℤ × ℕ
keys d = (negsuc 0, d)

silent_poll : (d : ℕ) → port d ≡ (negsuc 0, d + 1) → Polled port keys 3 d [] (d + 1)
silent_poll d e = polled (stop e) (stop refl) (omega arith) (omega arith)

two_arrive : Polled port keys 3 2 (66 ∷ 65 ∷ []) 4
two_arrive =
    polled (more refl refl (more refl refl (stop refl))) (stop refl) (omega arith) (omega arith)

-- the indices are about to wrap, and nothing waits
abbrev idle : Cons
idle = record { buf = λ i. 0; rpos = 511; wpos = 511 }

idle-IsValid : IsValid idle
idle-IsValid = record { reads = omega arith; writes = omega arith }

getchar-waits_example :
    (s' : Cons) × (console_getchar port keys 3 3 0 idle ≡ some (66, (4, s')))
    × IsValid s'
    × (contents s' ≡ 65 ∷ [])
getchar-waits_example =
    getchar-waits port keys 3 3 2 66 (65 ∷ []) idle idle-IsValid refl
      (quiet (silent_poll 0 refl) (quiet (silent_poll 1 refl) ready)) two_arrive (omega arith)
      (λ e. absurd (omega arith)) (omega arith)

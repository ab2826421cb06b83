-- ===== src/Tests/Commands.antt =====
-- kern/monitor.c on a line with two words, and on a chain of two frames.
use vukernelprogramming.Prelude.{
  ℕ, Option, ◌≤◌, ◌<◌, ◌≡◌, refl, true, some, List, [], ◌∷◌, ◌++◌, arith, if◌then◌else◌, ◌==◌, inr,
  ◌⊎◌, length,
}
use vukernelprogramming.Prelude.Int.{ℤ, pos}
use vukernelprogramming.Memory.{Mem}
use vukernelprogramming.Monitor.{Command, runcmd}
use vukernelprogramming.Monitor.Words.{words, Strings}
use vukernelprogramming.Monitor.Run.{called, runcmd-called}
use vukernelprogramming.Pmap.Address.{round_up}
use vukernelprogramming.Monitor.Commands.{word, traced, mon_kerninfo, mon_backtrace}
use vukernelprogramming.Monitor.Backtrace.{Frame, call, frames_calls, mon_backtrace-frames}
use vukernelprogramming.Tests.Eip.{tables, answer, eip_run}

-- the line " k 2" at 100, and the names "h" at 200 and "k" at 300
abbrev line : Mem
line a =
    if a == 100
    then b' '
    else if a == 101
    then b'k'
    else if a == 102
    then b' '
    else if a == 103
    then b'2'
    else if a == 200
    then b'h'
    else if a == 300
    then b'k'
    else 0

abbrev chars : List ℕ
chars = b' ' ∷ b'k' ∷ b' ' ∷ b'2' ∷ []

-- each command records its number, with the number of arguments
abbrev record_call : ℕ → List ℕ → Mem × List ℕ → Option (ℤ × Mem × List ℕ)
record_call n argv (m, e) = some (pos 0, m, n ∷ length argv ∷ e)

abbrev commands : List (Command (List ℕ))
commands = (200, record_call 1) ∷ (300, record_call 2) ∷ []

abbrev names : List (List ℕ)
names = (b'h' ∷ []) ∷ (b'k' ∷ []) ∷ []

abbrev unknown_command : Mem → ℕ → List ℕ → List ℕ
unknown_command m a e = 404 ∷ e

abbrev too_many_words : List ℕ → List ℕ
too_many_words e = 413 ∷ e

runcmd-called_example :
    (length (words true chars) ≤ 15
      → (m' : Mem) × (argv : List ℕ) × Strings m' argv (words true chars)
        × ((a : ℕ) → (a < 100) ⊎ (104 ≤ a) → m' a ≡ line a)
        × (runcmd 10 unknown_command too_many_words commands 100 (line, [])
            ≡ called unknown_command commands names (words true chars) argv (m', [])))
    × (15 < length (words true chars)
        → (m' : Mem) × (runcmd 10 unknown_command too_many_words commands 100 (line, [])
            ≡ some (pos 0, m', 413 ∷ [])))
runcmd-called_example =
    runcmd-called 10 unknown_command too_many_words commands names line 100 chars []
      (
        refl,
        (λ e. absurd (omega arith)),
        (
          refl,
          (λ e. absurd (omega arith)),
          (refl, (λ e. absurd (omega arith)), (refl, (λ e. absurd (omega arith)), refl)),
        ),
      )
      (omega arith)
      ((refl, (λ e. absurd (omega arith)), refl), ((refl, (λ e. absurd (omega arith)), refl), tt))
      (inr (omega arith), (inr (omega arith), tt))

-- two frames of the same function: the saved base pointers are 0x2000 and 0, and both return
-- addresses, read as four bytes, are 0xf0100020
abbrev stack : Mem
stack a =
    if a == 0x1001
    then 0x20
    else if (a == 0x1004)
    then 0x20
    else if a == 0x1006
    then 0x10
    else if a == 0x1007
    then 0xf0
    else if a == 0x2004
    then 0x20
    else if a == 0x2006
    then 0x10
    else if a == 0x2007
    then 0xf0
    else 0

abbrev frames : List Frame
frames =
    record { ebp = 0x1000; code = pos 0; info = answer }
    ∷ record { ebp = 0x2000; code = pos 0; info = answer }
    ∷ []

mon_backtrace-frames_example :
    mon_backtrace tables 12 3 stack 0x1000 []
    ≡ some (traced ([] ++ (call "Stack backtrace:\n" [] ∷ frames_calls stack frames)))
mon_backtrace-frames_example =
    mon_backtrace-frames tables 12 3 stack 0x1000 frames []
      (
        refl,
        (λ e. absurd (omega arith)),
        eip_run,
        (refl, (λ e. absurd (omega arith)), eip_run, refl),
      )
      (omega arith)

-- seven calls for each frame, with one argument, and the header
frames_run : length (frames_calls stack frames) ≡ 12
frames_run = refl

-- the memory of the kernel from its entry point to its end, in units of 1024 bytes
kerninfo_run :
    (mon_kerninfo
      (record {
        start_ = 0x10000c;
        entry = 0xf010000c;
        etext = 0xf0101000;
        edata = 0xf0112000;
        end_ = 0xf0112400;
      })
      []).1
    ≡ call "Special kernel symbols:\n" []
      ∷ call "  _start                  %08x (phys)\n" (word 0x10000c ∷ [])
      ∷ call "  entry  %08x (virt)  %08x (phys)\n" (word 0xf010000c ∷ word 0x10000c ∷ [])
      ∷ call "  etext  %08x (virt)  %08x (phys)\n" (word 0xf0101000 ∷ word 0x101000 ∷ [])
      ∷ call "  edata  %08x (virt)  %08x (phys)\n" (word 0xf0112000 ∷ word 0x112000 ∷ [])
      ∷ call "  end    %08x (virt)  %08x (phys)\n" (word 0xf0112400 ∷ word 0x112400 ∷ [])
      ∷ call "Kernel executable memory footprint: %dKB\n" (word 73 ∷ [])
      ∷ []
unfolding mon_kerninfo round_up
kerninfo_run = refl

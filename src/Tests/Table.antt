-- ===== src/Tests/Table.antt =====
-- The table of commands of kern/monitor.c on the line " help 2".
use vukernelprogramming.Prelude.{
  ℕ, ◌-◌, ◌<◌, ◌≤◌, ◌≡◌, refl, List, [], ◌∷◌, ◌++◌, arith, get_or, ltb, if◌then◌else◌, inr, ◌⊎◌,
}
use vukernelprogramming.Memory.{Mem, CString}
use vukernelprogramming.Printf.Conversions.{codes}
use vukernelprogramming.Monitor.{runcmd}
use vukernelprogramming.Monitor.Words.{Strings}
use vukernelprogramming.Monitor.Run.{addresses}
use vukernelprogramming.Monitor.Commands.{Call, Symbols}
use vukernelprogramming.Monitor.Table.{Texts, kernel_commands, command_names, Obeys, runcmd-Obeys}
use vukernelprogramming.Tests.Eip.{tables}

abbrev typed : List ℕ
typed = codes " help 2"

-- the line at 100, the names at 200, 205 and 214
abbrev pub texts_memory : Mem
texts_memory a =
    if ltb a 200
    then (if ltb a 100 then 0 else get_or typed (a - 100) 0)
    else get_or (codes "help" ++ (0 ∷ codes "kerninfo" ++ (0 ∷ codes "backtrace"))) (a - 200) 0

abbrev pub texts : Texts
texts = record {
  help_name = 200;
  help_desc = 300;
  kerninfo_name = 205;
  kerninfo_desc = 300;
  backtrace_name = 214;
  backtrace_desc = 300;
}

abbrev pub kernel_symbols : Symbols
kernel_symbols = record {
  start_ = 0x10000c;
  entry = 0xf010000c;
  etext = 0xf0101a00;
  edata = 0xf0110000;
  end_ = 0xf0112000;
}

-- the calls of cprintf so far
abbrev listing : List Call → List Call → List Call
listing calls e = e ++ calls

typed_at : CString texts_memory 100 typed
typed_at = ground arith

names_at :
    Strings texts_memory
      (addresses (kernel_commands listing (λ e. 0) tables 12 3 kernel_symbols texts))
      command_names
names_at = (ground arith, (ground arith, (ground arith, tt)))

runcmd-Obeys_example :
    (m' : Mem) × ((a : ℕ) → (a < 100) ⊎ (107 ≤ a) → m' a ≡ texts_memory a)
    × Obeys listing
        (λ e. 0)
        tables
        12
        3
        kernel_symbols
        texts
        (λ m a e. e)
        (codes "help")
        m'
        []
        (runcmd 20
          (λ m a e. e)
          (λ e. e)
          (kernel_commands listing (λ e. 0) tables 12 3 kernel_symbols texts)
          100
          (texts_memory, []))
runcmd-Obeys_example =
    runcmd-Obeys listing (λ e. 0) tables 12 3 kernel_symbols texts 20 (λ m a e. e) (λ e. e)
      texts_memory 100 typed [] (codes "help") (codes "2" ∷ []) (omega arith, omega arith) typed_at
      (omega arith) refl (omega arith) names_at
      (inr (omega arith), (inr (omega arith), (inr (omega arith), tt)))

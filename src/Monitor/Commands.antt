-- ===== src/Monitor/Commands.antt =====
-- The commands of kern/monitor.c. What they print is the list of their calls of cprintf, each with
-- its format and the words that follow it; `none` says that the fuel ran out.
use Prim.Native.String.{String}
use vukernelprogramming.Prelude.{
  ℕ, zero, suc, ◌+◌, ◌-◌, ◌/◌, ◌%◌, ◌^◌, Option, none, some, List, [], ◌∷◌, ◌++◌, ◌==◌,
  if◌then◌else◌,
}
use vukernelprogramming.Prelude.Int.{ℤ, pos, negsuc}
use vukernelprogramming.Memory.{Mem}
use vukernelprogramming.Boot.{word32}
use vukernelprogramming.Pmap.Address.{kernbase, round_up}
use vukernelprogramming.Kdebug.Eip.{
  Tables, Name, Info, user_address, outside, returns, debuginfo_eip,
}

-- an argument of cprintf: a number, or a string of the debugging information
pub data Word : Type 0 where
  word : ℕ → Word
  name : Name → Word

pub record Call : Type 0 where
  pub format : String
  pub words : List Word

abbrev pub print : String → List Word → List Call → List Call
print format words out = out ++ (record { format = format; words = words } ∷ [])

-- for each command, the addresses of its name and its description
unfoldable pub mon_help : List (ℕ × ℕ) → List Call → ℤ × List Call
mon_help [] out = (pos 0, out)
mon_help ((n, desc) ∷ commands) out =
    mon_help commands (print "%s - %s\n" (word n ∷ word desc ∷ []) out)

-- the symbols that the linker defines
pub record Symbols : Type 0 where
  pub start_ : ℕ
  pub entry : ℕ
  pub etext : ℕ
  pub edata : ℕ
  pub end_ : ℕ

abbrev phys : ℕ → ℕ
phys a = (a + 2 ^ 32 - kernbase) % 2 ^ 32

unfoldable pub mon_kerninfo : Symbols → List Call → ℤ × List Call
mon_kerninfo s out = (
  pos 0,
  print "Kernel executable memory footprint: %dKB\n"
      (word (round_up ((s.end_ + 2 ^ 32 - s.entry) % 2 ^ 32) 1024 / 1024) ∷ [])
      (print "  end    %08x (virt)  %08x (phys)\n" (word (s.end_) ∷ word (phys (s.end_)) ∷ []) (
        print "  edata  %08x (virt)  %08x (phys)\n" (word (s.edata) ∷ word (phys (s.edata)) ∷ []) (
          print "  etext  %08x (virt)  %08x (phys)\n" (word (s.etext) ∷ word (phys (s.etext)) ∷ [])
            (print "  entry  %08x (virt)  %08x (phys)\n"
              (word (s.entry) ∷ word (phys (s.entry)) ∷ [])
              (print "  _start                  %08x (phys)\n" (word (s.start_) ∷ [])
                (print "Special kernel symbols:\n" [] out)))))),
)

-- for (i = 0; i < nargs; i++) cprintf("%08x ", args[i]); with `args` the address of args[i]
unfoldable pub print_args : Mem → ℕ → ℕ → List Call → List Call
print_args m zero args out = out
print_args m (suc n) args out =
    print_args m n (args + 4) (print "%08x " (word (word32 m args) ∷ []) out)

-- the line of a frame, up to its arguments: what is printed of the function, and nargs
unfoldable pub frame_name : ℕ → ℤ → Info → List Call → ℕ × List Call
frame_name eip (pos zero) info out = (
  info.eip_fn_narg,
  print "%s:%d: %.*s+%d\t"
      (name (info.eip_file)
        ∷ word (info.eip_line)
        ∷ word (info.eip_fn_namelen)
        ∷ name (info.eip_fn_name)
        ∷ word ((eip + 2 ^ 32 - info.eip_fn_addr) % 2 ^ 32)
        ∷ [])
      out,
)
frame_name eip (pos (suc n)) info out = (6, print "<no debug info>\t" [] out)
frame_name eip (negsuc n) info out = (6, print "<no debug info>\t" [] out)

-- the lines printed for the frame at `ebp`, behind its return address
unfoldable pub frame_rest : Mem → ℕ → ℕ × List Call → List Call
unfolding print_args
frame_rest m ebp (nargs, out) =
    let named = print "  EBP: %08x " (word ebp ∷ []) out in
    print "\n" []
      (print_args m nargs (ebp + 8) (if nargs == 0 then named else print "  args " [] named))

-- how a backtrace ends: at the last frame, by a panic, or by a read outside the tables
pub data Trace : Type 0 where
  traced : List Call → Trace
  panicked wild : List Call → Trace

module _ (t : Tables) (f : ℕ) where
  -- while (ebp)
  unfoldable pub backtrace_loop : ℕ → Mem → ℕ → List Call → Option Trace
  unfolding frame_name frame_rest
  backtrace_loop zero m ebp out = none
  backtrace_loop (suc g) m ebp out =
      let eip = word32 m (ebp + 4) in
      let begun = print "  EIP: %08x " (word eip ∷ []) out in
      let frame : Option Trace = elim (debuginfo_eip t f eip) [
        | none ↦ none
        | some user_address ↦ some (panicked begun)
        | some outside ↦ some (wild begun)
        | some (returns code info) ↦
            backtrace_loop g m (word32 m ebp) (frame_rest m ebp (frame_name eip code info begun))
      ] in
      if ebp == 0 then some (traced out) else frame

  -- `ebp` is what read_ebp returns, and `g` the fuel of the loop
  unfoldable pub mon_backtrace : ℕ → Mem → ℕ → List Call → Option Trace
  unfolding backtrace_loop
  mon_backtrace g m ebp out = backtrace_loop g m ebp (print "Stack backtrace:\n" [] out)

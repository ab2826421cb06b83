-- ===== src/Monitor/Table.antt =====
-- The table of commands of kern/monitor.c, and what runcmd does with it. `says` is what calls of
-- cprintf do to the rest of the machine, and `read_ebp` is the instruction of inc/x86.h.
use vukernelprogramming.Prelude.{
  ℕ, ◌+◌, ◌≤◌, ◌<◌, ◌≡◌, ◌≢◌, refl, true, Option, none, some, List, [], ◌∷◌, arith, length, inl,
  inr, ◌⊎◌, ◌∙◌, ap, Bool-cases, subst, sym, ◌-◌, ◌/◌, ◌%◌, ◌^◌,
}
use vukernelprogramming.Prelude.Int.{ℤ, pos}
use vukernelprogramming.Memory.{Mem, CString}
use vukernelprogramming.Printf.Conversions.{codes}
use vukernelprogramming.Pmap.Address.{kernbase, round_up}
use vukernelprogramming.Kdebug.Eip.{Tables}
use vukernelprogramming.Monitor.{Command, runcmd}
use vukernelprogramming.Monitor.Words.{words, Strings}
use vukernelprogramming.Monitor.Run.{
  addresses, called, dispatch, Apart, same_chars, same_chars-eq, runcmd-called,
}
use vukernelprogramming.Monitor.Commands.{
  Word, word, Call, Symbols, traced, panicked, wild, mon_help, mon_kerninfo, mon_backtrace,
}
use vukernelprogramming.Monitor.Backtrace.{Frame, Chain, call, frames_calls, mon_backtrace-frames}

-- where the strings of the table stand
pub record Texts : Type 0 where
  pub help_name : ℕ
  pub help_desc : ℕ
  pub kerninfo_name : ℕ
  pub kerninfo_desc : ℕ
  pub backtrace_name : ℕ
  pub backtrace_desc : ℕ

abbrev pub command_names : List (List ℕ)
command_names = codes "help" ∷ codes "kerninfo" ∷ codes "backtrace" ∷ []

abbrev pub descriptions : Texts → List (ℕ × ℕ)
descriptions t =
    (t.help_name, t.help_desc)
    ∷ (t.kerninfo_name, t.kerninfo_desc)
    ∷ (t.backtrace_name, t.backtrace_desc)
    ∷ []

module _ {E : Type 0} (says : List Call → E → E) (read_ebp : E → ℕ) (tables : Tables) (f g : ℕ)
    (symbols : Symbols) (t : Texts) where
  abbrev help_command : List ℕ → Mem × E → Option (ℤ × Mem × E)
  help_command argv (m, e) =
      let (code, calls) = mon_help (descriptions t) [] in some (code, m, says calls e)

  abbrev kerninfo_command : List ℕ → Mem × E → Option (ℤ × Mem × E)
  kerninfo_command argv (m, e) =
      let (code, calls) = mon_kerninfo symbols [] in some (code, m, says calls e)

  -- a backtrace that panics, or leaves the tables, does not return
  abbrev backtrace_command : List ℕ → Mem × E → Option (ℤ × Mem × E)
  backtrace_command argv (m, e) = elim (mon_backtrace tables f g m (read_ebp e) []) [
    | none ↦ none
    | some (traced calls) ↦ some (pos 0, m, says calls e)
    | some (panicked calls) ↦ none
    | some (wild calls) ↦ none
  ]

  abbrev pub kernel_commands : List (Command E)
  kernel_commands =
      (t.help_name, help_command)
      ∷ (t.kerninfo_name, kerninfo_command)
      ∷ (t.backtrace_name, backtrace_command)
      ∷ []

  abbrev pub help_calls : List Call
  help_calls =
      call "%s - %s\n" (word (t.help_name) ∷ word (t.help_desc) ∷ [])
      ∷ call "%s - %s\n" (word (t.kerninfo_name) ∷ word (t.kerninfo_desc) ∷ [])
      ∷ call "%s - %s\n" (word (t.backtrace_name) ∷ word (t.backtrace_desc) ∷ [])
      ∷ []

  -- the address less 0xf0000000, around 2^32
  abbrev physical : ℕ → Word
  physical a = word ((a + 0x10000000) % 2 ^ 32)

  -- the symbols from the entry to the end, each with its address and its physical address, and the
  -- size of the kernel in kilobytes, rounded up
  abbrev pub kerninfo_calls : List Call
  kerninfo_calls =
      call "Special kernel symbols:\n" []
      ∷ call "  _start                  %08x (phys)\n" (word (symbols.start_) ∷ [])
      ∷ call "  entry  %08x (virt)  %08x (phys)\n"
          (word (symbols.entry) ∷ physical (symbols.entry) ∷ [])
      ∷ call "  etext  %08x (virt)  %08x (phys)\n"
          (word (symbols.etext) ∷ physical (symbols.etext) ∷ [])
      ∷ call "  edata  %08x (virt)  %08x (phys)\n"
          (word (symbols.edata) ∷ physical (symbols.edata) ∷ [])
      ∷ call "  end    %08x (virt)  %08x (phys)\n"
          (word (symbols.end_) ∷ physical (symbols.end_) ∷ [])
      ∷ call "Kernel executable memory footprint: %dKB\n"
          (word ((symbols.end_ - symbols.entry + 1023) / 1024) ∷ [])
      ∷ []

  -- what the first word asks for
  abbrev pub Obeys : (Mem → ℕ → E → E) → List ℕ → Mem → E → Option (ℤ × Mem × E) → Type 0
  Obeys unknown w m e o =
      (w ≡ codes "help" → o ≡ some (pos 0, m, says help_calls e))
      × (w ≡ codes "kerninfo" → o ≡ some (pos 0, m, says kerninfo_calls e))
      × (w ≡ codes "backtrace"
          → (frames : List Frame) → Chain tables f m (read_ebp e) frames
          → length frames < g
          → o ≡ some (pos 0, m, says (call "Stack backtrace:\n" [] ∷ frames_calls m frames) e))
      × (w ≢ codes "help"
          → w ≢ codes "kerninfo"
          → w ≢ codes "backtrace"
          → (a : ℕ) × CString m a w × (o ≡ some (pos 0, m, unknown m a e)))

  dispatch-other :
      (unknown : Mem → ℕ → E → E) (c : Command E) (commands : List (Command E)) (n : List ℕ)
      (names : List (List ℕ)) (w : List ℕ) (a : ℕ) (argv : List ℕ) (x : Mem × E)
      → w ≢ n
      → dispatch unknown (c ∷ commands) (n ∷ names) w a argv x
        ≡ dispatch unknown commands names w a argv x
  dispatch-other unknown c commands n names w a argv x ne = elim (Bool-cases (same_chars w n)) [
    | inl same ↦ absurd (ne (same_chars-eq w n same))
    | inr other ↦ rw other refl
  ]

  backtrace_command-run :
      (argv : List ℕ) (m : Mem) (e : E) (frames : List Frame)
      → Chain tables f m (read_ebp e) frames
      → length frames < g
      → backtrace_command argv (m, e)
        ≡ some (pos 0, m, says (call "Stack backtrace:\n" [] ∷ frames_calls m frames) e)
  backtrace_command-run argv m e frames c fuel =
      rw (backtrace_command, mon_backtrace-frames tables f g m (read_ebp e) frames [] c fuel) refl

  -- the entry is not behind the end of the kernel, which is at least 1 KB below 2^32
  abbrev pub Placed : Type 0
  Placed = (symbols.entry ≤ symbols.end_) × (symbols.end_ + 1024 ≤ 2 ^ 32)

  footprint-eq :
      Placed
      → round_up ((symbols.end_ + 2 ^ 32 - symbols.entry) % 2 ^ 32) 1024 / 1024
        ≡ (symbols.end_ - symbols.entry + 1023) / 1024
  unfolding round_up
  footprint-eq (lo, hi) = omega arith

  physical-eq : (a : ℕ) → (a + 2 ^ 32 - kernbase) % 2 ^ 32 ≡ (a + 0x10000000) % 2 ^ 32
  physical-eq a = omega arith

  mon_kerninfo-calls : Placed → mon_kerninfo symbols [] ≡ (pos 0, kerninfo_calls)
  unfolding mon_kerninfo
  mon_kerninfo-calls p =
      rw
        (
          mon_kerninfo,
          footprint-eq p,
          physical-eq (symbols.entry),
          physical-eq (symbols.etext),
          physical-eq (symbols.edata),
          physical-eq (symbols.end_),
        )
        refl

  dispatch-Obeys :
      (unknown : Mem → ℕ → E → E) (w : List ℕ) (a : ℕ) (argv : List ℕ) (m : Mem) (e : E)
      → Placed
      → CString m a w
      → Obeys unknown w m e (dispatch unknown kernel_commands command_names w a argv (m, e))
  unfolding mon_help
  dispatch-Obeys unknown w a argv m e p s = (
    λ h. rw h refl,
    λ h. rw (h, mon_kerninfo-calls p) refl,
    λ h frames c fuel. rw h (backtrace_command-run argv m e frames c fuel),
    λ h k b. (
      a,
      s,
      dispatch-other unknown (t.help_name, help_command)
            ((t.kerninfo_name, kerninfo_command) ∷ (t.backtrace_name, backtrace_command) ∷ [])
            (codes "help") (codes "kerninfo" ∷ codes "backtrace" ∷ []) w a argv (m, e) h
          ∙ dispatch-other unknown (t.kerninfo_name, kerninfo_command)
              ((t.backtrace_name, backtrace_command) ∷ []) (codes "kerninfo")
              (codes "backtrace" ∷ []) w a argv (m, e) k
          ∙ dispatch-other unknown (t.backtrace_name, backtrace_command) [] (codes "backtrace") [] w
              a argv (m, e) b,
    ),
  )

  called-Obeys :
      (unknown : Mem → ℕ → E → E) (w : List ℕ) (ws : List (List ℕ)) (argv : List ℕ) (m : Mem)
      (e : E)
      → Placed
      → Strings m argv (w ∷ ws)
      → Obeys unknown w m e (called unknown kernel_commands command_names (w ∷ ws) argv (m, e))
  called-Obeys unknown w ws [] m e p s = absurd s
  called-Obeys unknown w ws (a ∷ argv) m e p s = dispatch-Obeys unknown w a (a ∷ argv) m e p s.0

  -- The entry of the kernel is not behind its end, which is 1 KB or more below 2^32. The names of the
  -- commands stand in memory apart from the line, which has at least one and at most 15 words and is
  -- shorter than the fuel less one. In a memory that differs from the old one in the bytes of the
  -- line alone, runcmd returns 0: behind `help` it has listed the three commands; behind `kerninfo`
  -- it has printed the symbols with their physical addresses, and the size of the kernel in
  -- kilobytes; behind `backtrace` the frames of the chain that ends at 0, if debuginfo_eip returns
  -- for each and the chain is shorter than the fuel of the loop; any other first word is reported
  -- as unknown.
  pub runcmd-Obeys :
      (k : ℕ) (unknown : Mem → ℕ → E → E) (many : E → E) (m : Mem) (p : ℕ) (cs : List ℕ) (e : E)
      (w : List ℕ) (ws : List (List ℕ))
      → Placed
      → CString m p cs
      → length cs + 1 < k
      → words true cs ≡ w ∷ ws
      → length ws ≤ 14
      → Strings m (addresses kernel_commands) command_names
      → Apart p (length cs) (addresses kernel_commands) command_names
      → (m' : Mem) × ((a : ℕ) → (a < p) ⊎ (p + length cs ≤ a) → m' a ≡ m a)
        × Obeys unknown w m' e (runcmd k unknown many kernel_commands p (m, e))
  runcmd-Obeys k unknown many m p cs e w ws placed s fuel split few named apart =
      let (m', argv, st, same, run) =
        (runcmd-called k unknown many kernel_commands command_names m p cs e s fuel named apart).0
          (rw split (omega arith)) in
      (
        m',
        same,
        subst (Obeys unknown w m' e)
            (sym
              (run ∙ ap (λ x. called unknown kernel_commands command_names x argv (m', e)) split))
            (called-Obeys unknown w ws argv m' e placed (subst (Strings m' argv) split st)),
      )

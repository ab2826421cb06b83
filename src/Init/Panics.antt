-- ===== src/Init/Panics.antt =====
-- The first panic leaves its message; a later one prints nothing.
use vukernelprogramming.Prelude.{
  ℕ, ◌+◌, ◌^◌, ◌<◌, ◌≤◌, ◌⊎◌, ◌≡◌, ◌≢◌, refl, false, true, Option, List, [], ◌∷◌, ◌++◌, ◌==◌, arith,
  ap,
}
use mathlib.Core.List.{append_assoc}
use vukernelprogramming.Memory.{Mem, write}
use vukernelprogramming.Boot.{word32}
use vukernelprogramming.Printf.Events.{Event, told, formatted, cli_cld}
use vukernelprogramming.Init.{write32, Kernel, monitor_forever, report, _panic}

pub word32-write32 : (m : Mem) (p v : ℕ) → v < 2 ^ 32 → word32 (write32 m p v) p ≡ v
unfolding write32 write
word32-write32 m p v h = ground arith

pub write32_apart : (m : Mem) (p v a : ℕ) → (a < p) ⊎ (p + 4 ≤ a) → write32 m p v a ≡ m a
unfolding write32 write
write32_apart m p v a h = ground arith

-- what a first panic prints
abbrev pub panic_events : ℕ → ℕ → ℕ → List ℕ → List Event
panic_events file line fmt ap =
    cli_cld
    ∷ told "kernel panic at %s:%d: " (file ∷ line ∷ [])
    ∷ formatted fmt ap
    ∷ told "\n" []
    ∷ []

module _ {D : Type 0} where
  pub report-events :
      (panicstr file line fmt : ℕ) (ap : List ℕ) (k : Kernel D)
      → (report panicstr file line fmt ap k).events ≡ k.events ++ panic_events file line fmt ap
  unfolding report
  report-events panicstr file line fmt ap k = simp (append_assoc)

  pub report-word32 :
      (panicstr file line fmt : ℕ) (ap : List ℕ) (k : Kernel D)
      → fmt < 2 ^ 32
      → word32 (report panicstr file line fmt ap k).mem panicstr ≡ fmt
  unfolding report
  report-word32 panicstr file line fmt ap k h = word32-write32 k.mem panicstr fmt h

-- Let panicstr be NULL, and the format of a panic be at an address other than NULL. Then the panic
-- puts its message behind what was printed, puts its format in panicstr and changes no other byte of
-- the memory, and comes to the calls of the monitor in that state, whatever the monitor does. A panic
-- of whatever place and format, in any state that still has that format in panicstr, prints nothing
-- and changes nothing: it comes to the calls of the monitor at once.
pub panic-first :
    {D : Type 0} (monitor : Kernel D → Option (Kernel D)) (panicstr : ℕ)
    (rounds rounds' file line fmt file' line' fmt' : ℕ) (ap ap' : List ℕ) (k k1 : Kernel D)
    → word32 k.mem panicstr ≡ 0
    → fmt ≢ 0
    → fmt < 2 ^ 32
    → word32 k1.mem panicstr ≡ fmt
    → (told_k : Kernel D) × (told_k.events ≡ k.events ++ panic_events file line fmt ap)
      × (word32 told_k.mem panicstr ≡ fmt)
      × ((a : ℕ) → (a < panicstr) ⊎ (panicstr + 4 ≤ a) → told_k.mem a ≡ k.mem a)
      × (_panic monitor rounds panicstr file line fmt ap k ≡ monitor_forever monitor rounds told_k)
      × (_panic monitor rounds' panicstr file' line' fmt' ap' k1
          ≡ monitor_forever monitor rounds' k1)
unfolding _panic report
panic-first monitor panicstr rounds rounds' file line fmt file' line' fmt' ap ap' k k1 free set h
      marked =
    let none_before : (word32 k.mem panicstr == 0) ≡ true = ground (arith, free) in
    let one_before : (word32 k1.mem panicstr == 0) ≡ false = ground (arith, marked) in
    (
      report panicstr file line fmt ap k,
      report-events panicstr file line fmt ap k,
      report-word32 panicstr file line fmt ap k h,
      λ a apart. write32_apart k.mem panicstr fmt a apart,
      rw none_before refl,
      rw one_before refl,
    )

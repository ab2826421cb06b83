-- ===== src/Init.antt =====
-- kern/init.c: the start of the kernel, and panic; with cons_init of kern/console.c. The monitor is
-- an argument; `none` says that a call of it does not return. The memory holds panicstr; the other
-- global variables that the start sets are fields of their own.
pub mod Panics
pub mod Starts
use vukernelprogramming.Prelude.{
  ℕ, zero, suc, ◌+◌, ◌-◌, ◌/◌, ◌%◌, ◌^◌, Bool, true, false, Option, none, some, List, [], ◌∷◌, ◌++◌,
  ◌==◌, if◌then◌else◌,
}
use vukernelprogramming.Memory.{Mem, write}
use vukernelprogramming.Ports.{Ports}
use vukernelprogramming.Boot.{word32}
use vukernelprogramming.Str.Block.{memset}
use vukernelprogramming.Console.Init.{Display, cga_init, serial_init}
use vukernelprogramming.Printf.Events.{Event, told, formatted, cli_cld}
use vukernelprogramming.Pmap.Detect.{Memory}
use vukernelprogramming.Pmap.Check.{mem_init}

-- `*p = v` for four bytes
unfoldable pub write32 : Mem → ℕ → ℕ → Mem
unfolding write
write32 m p v =
    write
      (write (write (write m p (v % 2 ^ 8)) (p + 1) (v / 2 ^ 8 % 2 ^ 8)) (p + 2)
        (v / 2 ^ 16 % 2 ^ 8))
      (p + 3) (v / 2 ^ 24 % 2 ^ 8)

pub record Kernel (D : Type 0) : Type 0 where
  pub mem : Mem
  pub device : D
  pub display : Display
  pub serial_exists : Bool
  pub memory : Memory
  pub events : List Event

-- the addresses of edata, end and panicstr, and of the name of the file and the message in mem_init
pub record Layout : Type 0 where
  pub edata : ℕ
  pub end_ : ℕ
  pub panicstr : ℕ
  pub pmap_file : ℕ
  pub not_finished_text : ℕ

module _ {D : Type 0} where
  abbrev pub tell : List Event → Kernel D → Kernel D
  tell news k = record k { events = k.events ++ news }

  unfoldable pub _warn : ℕ → ℕ → ℕ → List ℕ → Kernel D → Kernel D
  _warn file line fmt ap k = tell (told "\n" [] ∷ []) (
      tell (formatted fmt ap ∷ [])
        (tell (told "kernel warning at %s:%d: " (file ∷ line ∷ []) ∷ []) k))

  -- the message, where no panic was before
  unfoldable pub report : ℕ → ℕ → ℕ → ℕ → List ℕ → Kernel D → Kernel D
  unfolding write32
  report panicstr file line fmt ap k =
      let marked = tell (cli_cld ∷ []) (record k { mem = write32 k.mem panicstr fmt }) in
      tell (told "\n" [] ∷ []) (
        tell (formatted fmt ap ∷ [])
          (tell (told "kernel panic at %s:%d: " (file ∷ line ∷ []) ∷ []) marked))

  module _ (monitor : Kernel D → Option (Kernel D)) where
    -- while (1) monitor(NULL), up to a number of calls
    unfoldable pub monitor_forever : ℕ → Kernel D → Option (Kernel D)
    monitor_forever zero k = some k
    monitor_forever (suc rounds) k = elim (monitor k) [
      | none ↦ none
      | some k' ↦ monitor_forever rounds k'
    ]

    -- `rounds` is the number of calls of the monitor behind the label dead
    unfoldable pub _panic : ℕ → ℕ → ℕ → ℕ → ℕ → List ℕ → Kernel D → Option (Kernel D)
    unfolding report monitor_forever
    _panic rounds panicstr file line fmt ap k =
        monitor_forever rounds
          (if word32 k.mem panicstr == 0 then report panicstr file line fmt ap k else k)

-- volatile reads and writes of 16-bit cells of the display's memory are arguments
module _ (ports : Ports) (peek : ℕ → ports.Device → ℕ × ports.Device)
    (poke : ℕ → ℕ → ports.Device → ports.Device) where
  -- kbd_init does nothing
  unfoldable pub cons_init : Kernel ports.Device → Kernel ports.Device
  cons_init k =
      let (display, d1) = cga_init ports peek poke k.device in
      let (serial_exists, d2) = serial_init ports d1 in
      let k' = record k { display = display; serial_exists = serial_exists; device = d2 } in
      if serial_exists then k' else tell (told "Serial port does not exist!\n" [] ∷ []) k'

  -- the panic of mem_init stands before the loop over the monitor, and does not return to it
  unfoldable pub i386_init :
      (Kernel ports.Device → Option (Kernel ports.Device))
      → ℕ
      → Layout
      → Kernel ports.Device
      → Option (Kernel ports.Device)
  unfolding cons_init _panic
  i386_init monitor rounds s k =
      let cleared = record k { mem = memset k.mem s.edata 0 (s.end_ - s.edata) } in
      let ready = cons_init cleared in
      let (memory, printed, d, e) = mem_init ports ready.device in
      _panic monitor rounds s.panicstr s.pmap_file 113 s.not_finished_text []
        (tell printed (record ready { memory = memory; device = d }))

-- ===== src/Monitor/Backtrace.antt =====
-- mon_backtrace prints the frames of the chain of saved base pointers, in order.
use Prim.Native.String.{String}
use mathlib.Core.List.{append-nil, append_assoc}
use vukernelprogramming.Prelude.{
  ℕ, zero, suc, ◌+◌, ◌<◌, ◌≡◌, ◌≢◌, refl, false, some, List, [], ◌∷◌, ◌++◌, arith, ◌==◌, length,
  ◌∙◌, ap, sym, ◌%◌, ◌^◌, ◌-◌,
}
use vukernelprogramming.Prelude.Int.{ℤ, pos, negsuc}
use vukernelprogramming.Memory.{Mem}
use vukernelprogramming.Boot.{word32}
use vukernelprogramming.Kdebug.Eip.{Tables, Info, returns, debuginfo_eip}
use vukernelprogramming.Monitor.Commands.{
  Word, word, name, Call, print, print_args, frame_name, frame_rest, traced, backtrace_loop,
  mon_backtrace,
}

abbrev pub call : String → List Word → Call
call format words = record { format = format; words = words }

-- a frame: its base pointer, and what debuginfo_eip answers for its return address
pub record Frame : Type 0 where
  pub ebp : ℕ
  pub code : ℤ
  pub info : Info

-- the frames of the chain that starts at a base pointer and ends at 0
abbrev pub Chain : Tables → ℕ → Mem → ℕ → List Frame → Type 0
Chain t f m e [] = e ≡ 0
Chain t f m e (b ∷ rest) =
    (e ≡ b.ebp)
    × (e ≢ 0)
    × (debuginfo_eip t f (word32 m (e + 4)) ≡ some (returns (b.code) (b.info)))
    × Chain t f m (word32 m e) rest

-- the calls for `n` words from an address
abbrev pub arg_calls : Mem → ℕ → ℕ → List Call
arg_calls m zero a = []
arg_calls m (suc n) a = call "%08x " (word (word32 m a) ∷ []) ∷ arg_calls m n (a + 4)

abbrev pub args_calls : Mem → ℕ → ℕ → List Call
args_calls m a zero = []
args_calls m a (suc n) = call "  args " [] ∷ arg_calls m (suc n) a

-- how many arguments are printed, and the call for the function
abbrev pub arg_count : ℤ → Info → ℕ
arg_count (pos zero) info = info.eip_fn_narg
arg_count (pos (suc n)) info = 6
arg_count (negsuc n) info = 6

abbrev pub function_call : ℕ → ℤ → Info → Call
function_call eip (pos zero) info = call "%s:%d: %.*s+%d\t" (
    name (info.eip_file)
    ∷ word (info.eip_line)
    ∷ word (info.eip_fn_namelen)
    ∷ name (info.eip_fn_name)
    ∷ word ((eip + 2 ^ 32 - info.eip_fn_addr) % 2 ^ 32)
    ∷ [])
function_call eip (pos (suc n)) info = call "<no debug info>\t" []
function_call eip (negsuc n) info = call "<no debug info>\t" []

abbrev pub frame_calls : Mem → Frame → List Call
frame_calls m b =
    call "  EIP: %08x " (word (word32 m (b.ebp + 4)) ∷ [])
      ∷ function_call (word32 m (b.ebp + 4)) (b.code) (b.info)
      ∷ call "  EBP: %08x " (word (b.ebp) ∷ [])
      ∷ args_calls m (b.ebp + 8) (arg_count (b.code) (b.info))
    ++ (call "\n" [] ∷ [])

abbrev pub frames_calls : Mem → List Frame → List Call
frames_calls m [] = []
frames_calls m (b ∷ rest) = frame_calls m b ++ frames_calls m rest

print_args-calls :
    (m : Mem) (n a : ℕ) (out : List Call) → print_args m n a out ≡ out ++ arg_calls m n a
unfolding print_args
print_args-calls m zero a out = sym (append-nil out)
print_args-calls m (suc n) a out =
    print_args-calls m n (a + 4) (print "%08x " (word (word32 m a) ∷ []) out)
    ∙ append_assoc out (call "%08x " (word (word32 m a) ∷ []) ∷ []) (arg_calls m n (a + 4))

frame_name-call :
    (eip : ℕ) (code : ℤ) (info : Info) (out : List Call)
    → frame_name eip code info out
      ≡ (arg_count code info, out ++ (function_call eip code info ∷ []))
unfolding frame_name
frame_name-call eip (pos zero) info out = refl
frame_name-call eip (pos (suc n)) info out = refl
frame_name-call eip (negsuc n) info out = refl

frame_rest-calls :
    (m : Mem) (e n : ℕ) (out : List Call)
    → frame_rest m e (n, out)
      ≡ out ++ (call "  EBP: %08x " (word e ∷ []) ∷ args_calls m (e + 8) n ++ (call "\n" [] ∷ []))
unfolding frame_rest print_args
frame_rest-calls m e zero out =
    append_assoc out (call "  EBP: %08x " (word e ∷ []) ∷ []) (call "\n" [] ∷ [])
frame_rest-calls m e (suc n) out =
    let named = out ++ (call "  EBP: %08x " (word e ∷ []) ∷ []) in
    let more : (suc n == 0) ≡ false = ground arith in
    rw (frame_rest, more)
      (ap (print "\n" []) (print_args-calls m (suc n) (e + 8) (print "  args " [] named))
        ∙ simp (append_assoc))

frame-calls :
    (m : Mem) (e : ℕ) (b : Frame) (out : List Call)
    → e ≡ b.ebp
    → frame_rest m e (
        frame_name
          (word32 m (e + 4))
          (b.code)
          (b.info)
          (print "  EIP: %08x " (word (word32 m (e + 4)) ∷ []) out))
      ≡ out ++ frame_calls m b
frame-calls m e b out here =
    let begun = print "  EIP: %08x " (word (word32 m (e + 4)) ∷ []) out in
    let eip = word32 m (e + 4) in
    ap (frame_rest m e) (frame_name-call eip (b.code) (b.info) begun)
    ∙ frame_rest-calls m e (arg_count (b.code) (b.info))
        (begun ++ (function_call eip (b.code) (b.info) ∷ []))
    ∙ simp (append_assoc, here)

backtrace_loop-calls :
    (t : Tables) (f g : ℕ) (m : Mem) (e : ℕ) (frames : List Frame) (out : List Call)
    → Chain t f m e frames
    → length frames < g
    → backtrace_loop t f g m e out ≡ some (traced (out ++ frames_calls m frames))
unfolding backtrace_loop
backtrace_loop-calls t f zero m e frames out c fuel = absurd (omega arith)
backtrace_loop-calls t f (suc g) m e [] out c fuel =
    rw c (ap (λ l. some (traced l)) (sym (append-nil out)))
backtrace_loop-calls t f (suc g) m e (b ∷ rest) out (here, more, answer, c) fuel =
    let on : (e == 0) ≡ false = ground arith in
    rw (on, answer)
      (ap (backtrace_loop t f g m (word32 m e)) (frame-calls m e b out here)
        ∙ backtrace_loop-calls t f g m (word32 m e) rest (out ++ frame_calls m b) c (omega arith)
        ∙ ap (λ l. some (traced l)) (append_assoc out (frame_calls m b) (frames_calls m rest)))

-- For a chain of saved base pointers that ends at 0, with debuginfo_eip returning for the return
-- address of each frame, and with more fuel than there are frames, mon_backtrace ends and makes
-- these calls of cprintf, in order: the header, and for each frame its return address, the call for
-- the function (or the one for no information), the base pointer, the arguments if there are any
-- (as many as the function has, or 6 with no information), and the end of the line.
pub mon_backtrace-frames :
    (t : Tables) (f g : ℕ) (m : Mem) (e : ℕ) (frames : List Frame) (out : List Call)
    → Chain t f m e frames
    → length frames < g
    → mon_backtrace t f g m e out
      ≡ some (traced (out ++ (call "Stack backtrace:\n" [] ∷ frames_calls m frames)))
unfolding mon_backtrace
mon_backtrace-frames t f g m e frames out c fuel =
    backtrace_loop-calls t f g m e frames (print "Stack backtrace:\n" [] out) c fuel
    ∙ ap (λ l. some (traced l))
        (append_assoc out (call "Stack backtrace:\n" [] ∷ []) (frames_calls m frames))

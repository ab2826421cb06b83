-- ===== src/Readline/Edit.antt =====
-- readline is a line editor: the buffer holds what is left after the erasures.
use vukernelprogramming.Prelude.{
  ℕ, ◌^◌, leb, ltb, ◌&&◌, if◌then◌else◌, zero, suc, ◌+◌, ◌-◌, ◌%◌, ◌≤◌, ◌<◌, ◌≡◌, ◌≢◌, refl, Bool,
  true, false, ◌||◌, Option, some, ◌==◌, List, [], ◌∷◌, arith, length, ◌++◌, ◌∙◌, Bool-cases, inl,
  inr,
}
use vukernelprogramming.Prelude.Int.{pos}
use vukernelprogramming.Memory.{Mem, write}
use vukernelprogramming.Readline.{
  Line, line, buflen, Action, erase, insert, finish, ignore, action, Console, readline_loop,
  readline, echo, after,
}

-- the characters of the line, the last one first
abbrev pub Typed : Type 0
Typed = List ℕ

abbrev pub drop_last : Typed → Typed
drop_last [] = []
drop_last (c ∷ cs) = cs

-- what an action of the loop does to a line
abbrev edit_by : Action → ℕ → Typed → Typed
edit_by erase c cs = drop_last cs
edit_by insert c cs = c % 256 ∷ cs
edit_by finish c cs = cs
edit_by ignore c cs = cs

-- The editing rules: a backspace or a DEL removes the last character; where there is none, a
-- backspace does nothing, and a DEL is a character like any other. A character from the blank on is
-- put behind the line while it has fewer than 1023 characters, and all else leaves the line alone.
abbrev pub edit : ℕ → Typed → Typed
edit c [] = if leb b' ' c then c % 256 ∷ [] else []
edit c (d ∷ ds) =
    if c == 8 || c == 0x7f
    then ds
    else if leb b' ' c && ltb (length (d ∷ ds)) 1023
    then c % 256 ∷ d ∷ ds
    else d ∷ ds

abbrev pub edit_all : List ℕ → Typed → Typed
edit_all [] cs = cs
edit_all (k ∷ ks) cs = edit_all ks (edit k cs)

-- the first characters of the buffer
abbrev pub Holds : Mem → Typed → Type 0
Holds buf [] = Unit {0}
Holds buf (c ∷ cs) = (buf (length cs) ≡ c) × Holds buf cs

Holds-write :
    (buf : Mem) (i v : ℕ) (cs : Typed) → length cs ≤ i → Holds buf cs → Holds (write buf i v) cs
unfolding write
Holds-write buf i v [] h k = tt
Holds-write buf i v (c ∷ cs) h k = (ground arith, Holds-write buf i v cs (omega arith) k.1)

write_self : (buf : Mem) (i v : ℕ) → write buf i v i ≡ v
unfolding write
write_self buf i v = ground arith

Holds-drop_last : (buf : Mem) (cs : Typed) → Holds buf cs → Holds buf (drop_last cs)
Holds-drop_last buf [] h = tt
Holds-drop_last buf (c ∷ cs) h = h.1

length-drop_last : (cs : Typed) → length (drop_last cs) ≡ length cs - 1
length-drop_last [] = refl
length-drop_last (c ∷ cs) = omega arith

abbrev pub is_end : ℕ → Bool
is_end c = c == 10 || c == 13

abbrev pub NoEnd : List ℕ → Type 0
NoEnd [] = Unit {0}
NoEnd (k ∷ ks) = (is_end k ≡ false) × NoEnd ks

edit_by-edit :
    (c : ℕ) (cs : Typed)
    → is_end c ≡ false
    → length cs < buflen
    → edit_by (action c (length cs)) c cs ≡ edit c cs
unfolding action
edit_by-edit c [] h l = ground arith
edit_by-edit c (d ∷ ds) h l = ground arith

-- what a character that ends no line does, and one that does
action-ne-finish : (c i : ℕ) → is_end c ≡ false → action c i ≢ finish
unfolding action
action-ne-finish c i h = ground arith

action-finish : (c i : ℕ) → is_end c ≡ true → action c i ≡ finish
unfolding action
action-finish c i h = ground arith

action-erase : (c i : ℕ) → action c i ≡ erase → 0 < i
unfolding action
action-erase c i h = ground arith

action-insert : (c i : ℕ) → i < buflen → action c i ≡ insert → i < buflen - 1
unfolding action
action-insert c i l h = ground arith

-- the input that waits: getchar takes its first character, and output leaves it alone, in the states
-- in which the console is ready
pub record HasInput (console : Console) : Type 1 where
  pub input : console.State → List ℕ
  pub IsReady : console.State → Type 0
  pub first :
      (e : console.State) (c : ℕ) (cs : List ℕ)
      → IsReady e
      → input e ≡ c ∷ cs
      → (e' : console.State) × (console.getchar e ≡ some (pos c, e')) × (input e' ≡ cs) × IsReady e'
  pub output_keeps :
      (c : ℕ) (e : console.State)
      → IsReady e
      → (input (console.cputchar c e) ≡ input e) × IsReady (console.cputchar c e)
  pub prompt_keeps :
      (e : console.State)
      → IsReady e
      → (input (console.prompt e) ≡ input e) × IsReady (console.prompt e)

module _ (console : Console) (has_input : HasInput console) where
  open console use {State, getchar}
  open has_input use {input, IsReady, first, output_keeps, prompt_keeps}

  -- the input `left` waits, and the console is ready
  abbrev pub Waits : List ℕ → State → Type 0
  Waits left e = (input e ≡ left) × IsReady e

  echo_keeps : (c : ℕ) (e : State) (left : List ℕ) → Waits left e → Waits left (echo console c e)
  unfolding echo
  echo_keeps c e left (i, r) = elim (Bool-cases console.iscons) [
    | inl on ↦ let (i', r') = output_keeps c e r in rw on (i' ∙ i, r')
    | inr off ↦ rw off (i, r)
  ]

  -- the line `cs` was entered, and the input `rest` is left
  abbrev pub Entered : List ℕ → Typed → Option (Line × State) → Type 0
  Entered rest cs o =
      (buf : Mem) × (e : State) × (o ≡ some (line buf, e))
      × Holds buf cs
      × (buf (length cs) ≡ 0)
      × (length cs < buflen)
      × Waits rest e

  readline_loop-at :
      (f i : ℕ) (buf : Mem) (e e' : State) (c : ℕ)
      → getchar e ≡ some (pos c, e')
      → readline_loop console (suc f) i buf e
        ≡ after console (readline_loop console f) (action c i) c i buf e'
  unfolding readline_loop
  readline_loop-at f i buf e e' c got = rw (got, readline_loop) refl

  -- a round whose character ends no line, with what the rounds behind it give
  after-edit :
      (again : ℕ → Mem → State → Option (Line × State)) (a : Action) (ks : List ℕ) (c : ℕ)
      (rest : List ℕ) (cs : Typed) (buf : Mem) (e : State) (left : List ℕ)
      → ((ds : Typed) (b : Mem) (e' : State)
          → Waits left e'
          → Holds b ds
          → length ds < buflen
          → Entered rest (edit_all ks ds) (again (length ds) b e'))
      → action c (length cs) ≡ a
      → a ≢ finish
      → Waits left e
      → Holds buf cs
      → length cs < buflen
      → Entered rest (edit_all ks (edit_by a c cs)) (after console again a c (length cs) buf e)
  unfolding after
  after-edit again erase ks c rest cs buf e left ih at ne i h k =
      let some_char = action-erase c (length cs) at in
      let less : (length cs + 2 ^ 32 - 1) % 2 ^ 32 ≡ length (drop_last cs) =
        omega (arith, length-drop_last cs) in
      rw less (
        ih (drop_last cs) buf _ (echo_keeps 8 e left i) (Holds-drop_last buf cs h)
          (omega (arith, length-drop_last cs)))
  after-edit again insert ks c rest cs buf e left ih at ne i h k =
      let n : (length cs + 1) % 2 ^ 32 ≡ suc (length cs) = omega arith in
      rw n (
        ih (c % 256 ∷ cs) (write buf (length cs) (c % 256)) _ (echo_keeps c e left i)
          (
            write_self buf (length cs) (c % 256),
            Holds-write buf (length cs) (c % 256) cs (omega arith) h,
          )
          (omega (arith, action-insert c (length cs) k at)))
  after-edit again finish ks c rest cs buf e left ih at ne i h k = absurd (ne refl)
  after-edit again ignore ks c rest cs buf e left ih at ne i h k = ih cs buf e i h k

  readline_loop-edit :
      (f : ℕ) (ks : List ℕ) (c : ℕ) (rest : List ℕ) (cs : Typed) (buf : Mem) (e : State)
      → Waits (ks ++ (c ∷ rest)) e
      → NoEnd ks
      → is_end c ≡ true
      → length ks < f
      → Holds buf cs
      → length cs < buflen
      → Entered rest (edit_all ks cs) (readline_loop console f (length cs) buf e)
  unfolding after
  readline_loop-edit zero ks c rest cs buf e i n end fuel h k = absurd (omega arith)
  readline_loop-edit (suc f) [] c rest cs buf e i n end fuel h k =
      let (e1, got, left, ready) = first e c rest i.1 i.0 in
      (
        write buf (length cs) 0,
        echo console 10 e1,
        readline_loop-at f (length cs) buf e e1 c got ∙ done c (length cs) buf e1 end,
        Holds-write buf (length cs) 0 cs (omega arith) h,
        write_self buf (length cs) 0,
        k,
        echo_keeps 10 e1 rest (left, ready),
      )
    where
      done :
          (c i : ℕ) (buf : Mem) (e : State)
          → is_end c ≡ true
          → after console (readline_loop console f) (action c i) c i buf e
            ≡ some (line (write buf i 0), echo console 10 e)
      done c i buf e end = rw (action-finish c i end, after) refl
  readline_loop-edit (suc f) (j ∷ ks) c rest cs buf e i n end fuel h k =
      let (e1, got, left, ready) = first e j (ks ++ (c ∷ rest)) i.1 i.0 in
      let edited = edit_by-edit j cs n.0 k in
      rw (readline_loop-at f (length cs) buf e e1 j got, ← edited)
        (after-edit (readline_loop console f) (action j (length cs)) ks j rest cs buf e1
          (ks ++ (c ∷ rest))
          (λ ds b e' i' h' k'.
            readline_loop-edit f ks c rest ds b e' i' n.1 end (omega arith) h' k')
          refl (action-ne-finish j (length cs) n.0) (left, ready) h k)

  -- If the console is ready and the characters `ks` wait, none of them a line end, and then a line end, readline with more
  -- fuel than that returns, and takes them and no more. Its buffer holds the line that the
  -- characters leave one by one by the editing rules, with a NUL behind it, inside the buffer.
  pub readline-edit :
      (f : ℕ) (has_prompt : Bool) (ks : List ℕ) (c : ℕ) (rest : List ℕ) (buf : Mem) (e : State)
      → Waits (ks ++ (c ∷ rest)) e
      → NoEnd ks
      → is_end c ≡ true
      → length ks < f
      → Entered rest (edit_all ks []) (readline console f has_prompt buf e)
  unfolding readline
  readline-edit f true ks c rest buf e i n end fuel =
      let (i', r') = prompt_keeps e i.1 in
      readline_loop-edit f ks c rest [] buf (console.prompt e) (i' ∙ i.0, r') n end fuel tt
        (omega arith)
  readline-edit f false ks c rest buf e i n end fuel =
      readline_loop-edit f ks c rest [] buf e i n end fuel tt (omega arith)

-- A DEL in an empty line is stored as a character, although elsewhere it erases one.
pub action-del_empty :
    (action 0x7f 0 ≡ insert) × ((i : ℕ) → 0 < i → i < 2 ^ 31 → action 0x7f i ≡ erase)
unfolding action
action-del_empty = (refl, λ i lo hi. ground arith)

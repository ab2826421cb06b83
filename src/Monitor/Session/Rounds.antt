-- ===== src/Monitor/Session/Rounds.antt =====
-- A round of monitor (kern/monitor.c) runs the command that was typed.
use vukernelprogramming.Prelude.{
  ℕ, Option, none, suc, ◌+◌, ◌≤◌, ◌<◌, ◌≡◌, refl, true, some, List, [], ◌∷◌, ◌++◌, arith, length,
  inl, inr, ◌⊎◌, ◌∙◌,
}
use vukernelprogramming.Prelude.Int.{ℤ, pos, negsuc}
use vukernelprogramming.Memory.{Mem, CString}
use vukernelprogramming.Readline.{Console, buflen, line, readline}
use vukernelprogramming.Readline.Edit.{HasInput, Waits, NoEnd, is_end, edit_all, readline-edit}
use vukernelprogramming.Monitor.{Command, runcmd, monitor_loop}
use vukernelprogramming.Monitor.Words.{words, Strings}
use vukernelprogramming.Monitor.Run.{addresses, called, Apart, Strings-same, runcmd-called}
use vukernelprogramming.Monitor.Session.{
  with_buffer, typed_line, Bytes, read_line, run_line, resume,
}
use vukernelprogramming.Monitor.Session.Line.{
  edit_all-NonZero, length-in_order, in_order-CString, with_buffer-inside, with_buffer-outside,
  Apart-less,
}

outside_less : (p k a : ℕ) → k ≤ buflen → (a < p) ⊎ (p + buflen ≤ a) → (a < p) ⊎ (p + k ≤ a)
outside_less p k a l (inl b) = inl b
outside_less p k a l (inr b) = inr (omega arith)

module _ (console : Console) (has_input : HasInput console) (f place : ℕ) where
  open console use {State}
  open has_input use {input, IsReady}

  read_line-line :
      (m : Mem) (e : State) (buf : Mem) (e' : State)
      → readline console f true (λ i. m (place + i)) e ≡ some (line buf, e')
      → read_line console f place (m, e) ≡ some (some place, with_buffer m place buf, e')
  unfolding read_line
  read_line-line m e buf e' h = rw (read_line, h) refl

  -- the keys of one line give a string at the buffer, and change the buffer alone
  read_line-typed :
      (ks : List ℕ) (c : ℕ) (rest : List ℕ) (m : Mem) (e : State)
      → Waits console has_input (ks ++ (c ∷ rest)) e
      → NoEnd ks
      → Bytes ks
      → is_end c ≡ true
      → length ks < f
      → (m' : Mem) × (e' : State) × (read_line console f place (m, e) ≡ some (some place, m', e'))
        × CString m' place (typed_line ks)
        × (length (typed_line ks) < buflen)
        × ((a : ℕ) → (a < place) ⊎ (place + buflen ≤ a) → m' a ≡ m a)
        × Waits console has_input rest e'
  read_line-typed ks c rest m e i n b end fuel =
      let (buf, e', run, h, z, l, left) =
        readline-edit console has_input f true ks c rest (λ i'. m (place + i')) e i n end fuel in
      let cs = edit_all ks [] in
      let len = length-in_order cs [] in
      (
        with_buffer m place buf,
        e',
        read_line-line m e buf e' run,
        in_order-CString (with_buffer m place buf) buf place cs [] (with_buffer-inside m buf place)
            l h (edit_all-NonZero ks [] b tt) (with_buffer-inside m buf place (length cs) l ∙ z),
        omega arith,
        with_buffer-outside m buf place,
        left,
      )

  module _ (unknown : Mem → ℕ → State → State) (many : State → State)
      (commands : List (Command State)) (names : List (List ℕ)) where
    round_resume :
        (rounds : ℕ) (m m' : Mem) (e e' : State) (r : Option (ℤ × Mem × State))
        → read_line console f place (m, e) ≡ some (some place, m', e')
        → runcmd f unknown many commands place (m', e') ≡ r
        → monitor_loop
            (suc rounds)
            (read_line console f place)
            (run_line console f place unknown many commands)
            (m, e)
          ≡ resume console f place unknown many commands rounds r
    unfolding monitor_loop
    round_resume rounds m m' e e' none h k = rw (monitor_loop, h, k) refl
    round_resume rounds m m' e e' (some (pos n, m2, e2)) h k = rw (monitor_loop, h, k) refl
    round_resume rounds m m' e e' (some (negsuc n, m2, e2)) h k = rw (monitor_loop, h, k) refl

    -- Let the console be ready and the keys of a line wait, bytes with no line end among them, then a line end, and let the
    -- names of the commands stand outside readline's buffer. With more fuel than keys and than
    -- 1025, a round of the monitor takes these keys and no more. If the line that they leave has at
    -- most 15 words, the round calls what runcmd has for the words, on one address for each word,
    -- in a memory that holds them and differs from the old one in the buffer alone; the loop goes on
    -- or ends by the sign of what the command returns. If there are more words, it prints the
    -- message for that and goes on.
    pub monitor_loop-called :
        (rounds : ℕ) (ks : List ℕ) (c : ℕ) (rest : List ℕ) (m : Mem) (e : State)
        → Waits console has_input (ks ++ (c ∷ rest)) e
        → NoEnd ks
        → Bytes ks
        → is_end c ≡ true
        → length ks < f
        → buflen + 1 < f
        → Strings m (addresses commands) names
        → Apart place buflen (addresses commands) names
        → (e' : State) × Waits console has_input rest e'
          × (length (words true (typed_line ks)) ≤ 15
              → (m' : Mem) × (argv : List ℕ) × Strings m' argv (words true (typed_line ks))
                × ((a : ℕ) → (a < place) ⊎ (place + buflen ≤ a) → m' a ≡ m a)
                × (monitor_loop
                      (suc rounds)
                      (read_line console f place)
                      (run_line console f place unknown many commands)
                      (m, e)
                    ≡ resume console f place unknown many commands rounds
                        (called unknown commands names (words true (typed_line ks)) argv (m', e'))))
          × (15 < length (words true (typed_line ks))
              → (m' : Mem) × (monitor_loop
                    (suc rounds)
                    (read_line console f place)
                    (run_line console f place unknown many commands)
                    (m, e)
                  ≡ monitor_loop rounds
                      (read_line console f place)
                      (run_line console f place unknown many commands)
                      (m', many e')))
    monitor_loop-called rounds ks c rest m e i n b end fuel fuel' named apart =
        let (m1, e1, run, s, l, same, left) = read_line-typed ks c rest m e i n b end fuel in
        let (few, lots) =
          runcmd-called f unknown many commands names m1 place (typed_line ks) e1 s (omega arith)
            (Strings-same m m1 place buflen (addresses commands) names same apart named)
            (Apart-less place buflen (length (typed_line ks)) (addresses commands) names
              (omega arith) apart) in
        (
          e1,
          left,
          λ k.
              let (m2, argv, st, same2, run2) = few k in
              (
                m2,
                argv,
                st,
                λ a o.
                    same2 a (outside_less place (length (typed_line ks)) a (omega arith) o)
                    ∙ same a o,
                round_resume rounds m m1 e e1 _ run run2,
              ),
          λ k. let (m2, run2) = lots k in (m2, round_resume rounds m m1 e e1 _ run run2),
        )

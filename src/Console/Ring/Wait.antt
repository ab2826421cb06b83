-- ===== src/Console/Ring/Wait.antt =====
-- getchar over cons_getc: the wait for a character.
use vukernelprogramming.Prelude.{
  ℕ, ◌+◌, zero, suc, ◌≤◌, ◌<◌, ◌≡◌, ◌≢◌, refl, false, true, Option, none, some, List, [], ◌∷◌, ◌++◌,
  ap, arith, length, inl, inr, ◌∙◌, sym, subst, length-append, ◌==◌,
}
use mathlib.Core.List.{append_assoc}
use vukernelprogramming.Prelude.Int.{ℤ}
use vukernelprogramming.Console.Ring.{Cons, take_char, serial_intr, cons_intr, cons_getc, getchar}
use vukernelprogramming.Console.Ring.Queue.{
  IsValid, count, contents, take_char-IsValid, contents-take_char,
}
use vukernelprogramming.Console.Ring.Poll.{accepted, Yields, cons_intr-contents, count-contents}

pub getchar-stop :
    {X : Type 0} (g c : ℕ) (getc : X → Option (ℕ × X)) (x x' : X)
    → getc x ≡ some (c, x')
    → c ≢ 0
    → getchar (suc g) getc x ≡ some (c, x')
unfolding getchar
getchar-stop g c getc x x' e nonzero =
    let on : (c == 0) ≡ false = ground arith in rw (e, on, getchar) refl

getchar-again :
    {X : Type 0} (g c : ℕ) (getc : X → Option (ℕ × X)) (x x' : X)
    → getc x ≡ some (c, x')
    → c ≡ 0
    → getchar (suc g) getc x ≡ getchar g getc x'
unfolding getchar
getchar-again g c getc x x' e z = rw (e, z, getchar) refl

module _ {D : Type 0} (serial kbd : D → ℤ × D) (f : ℕ) where
  abbrev paired : Option (ℕ × D × Cons) → Option (ℕ × (D × Cons))
  paired none = none
  paired (some (c, d, s)) = some (c, (d, s))

  -- cons_getc where there is a serial port, on the pair of the devices and the buffer
  abbrev pub poll_console : D × Cons → Option (ℕ × (D × Cons))
  poll_console (d, s) = paired (cons_getc true f serial kbd d s)

  -- getchar of the console
  abbrev pub console_getchar : ℕ → D → Cons → Option (ℕ × (D × Cons))
  console_getchar g d s = getchar g poll_console (d, s)

  -- what the two devices have for one poll: the bytes, in the order in which they come
  pub data Polled : D → List ℕ → D → Type 0 where
    polled :
        {d d1 d2 : D} {cs ks : List ℤ}
        → Yields serial d cs d1
        → Yields kbd d1 ks d2
        → length cs < f
        → length ks < f
        → Polled d (accepted cs ++ accepted ks) d2

  -- `k` polls in a row that bring nothing
  pub data Silent : D → ℕ → D → Type 0 where
    ready : {d : D} → Silent d 0 d
    quiet : {d d1 d2 : D} {k : ℕ} → Polled d [] d1 → Silent d1 k d2 → Silent d (suc k) d2

  cons_getc-run :
      (d d1 d2 : D) (s s1 s2 : Cons)
      → cons_intr f serial d s ≡ some (d1, s1)
      → cons_intr f kbd d1 s1 ≡ some (d2, s2)
      → cons_getc true f serial kbd d s ≡ some ((take_char s2).0, d2, (take_char s2).1)
  unfolding cons_getc serial_intr
  cons_getc-run d d1 d2 s s1 s2 run1 run2 = rw (cons_getc, run1, run2) refl

  -- a poll puts what the devices have behind what waits
  pub poll_console-append :
      {d d' : D} {cs : List ℕ} (s : Cons)
      → Polled d cs d'
      → IsValid s
      → length (contents s) + length cs ≤ 511
      → (s' : Cons) × (poll_console (d, s) ≡ some ((take_char s').0, (d', (take_char s').1)))
        × IsValid s'
        × (contents s' ≡ contents s ++ cs)
  poll_console-append s (polled {d} {d1} {d2} {cs} {ks} y1 y2 f1 f2) v room =
      let n0 = count-contents s in
      let split = length-append (accepted cs) (accepted ks) in
      let (s1, run1, v1, e1) = cons_intr-contents serial f s y1 v f1 (omega (arith, n0, split)) in
      let n1 : count s1 ≡ length (contents s) + length (accepted cs) =
        sym (count-contents s1) ∙ ap length e1 ∙ length-append (contents s) (accepted cs) in
      let (s2, run2, v2, e2) = cons_intr-contents kbd f s1 y2 v1 f2 (omega (arith, n1, split)) in
      (
        s2,
        ap paired (cons_getc-run d d1 d2 s s1 s2 run1 run2),
        v2,
        e2 ∙ ap (λ l. l ++ accepted ks) e1 ∙ append_assoc (contents s) (accepted cs) (accepted ks),
      )

  poll_console-contents :
      {d d' : D} {cs : List ℕ} (s : Cons)
      → Polled d cs d'
      → IsValid s
      → contents s ≡ []
      → length cs ≤ 511
      → (s' : Cons) × (poll_console (d, s) ≡ some ((take_char s').0, (d', (take_char s').1)))
        × IsValid s'
        × (contents s' ≡ cs)
  poll_console-contents {cs = cs} s p v empty room =
      let n = ap length empty in
      let (s', run, v', e) = poll_console-append s p v (omega (arith, n)) in
      (s', run, v', e ∙ ap (λ l. l ++ cs) empty)

  -- an empty buffer gives 0, and stays
  take_char-empty : (s : Cons) → IsValid s → contents s ≡ [] → take_char s ≡ (0, s)
  take_char-empty s v e = elim (contents-take_char s v) [
    | inl (none_wait, taken) ↦ taken
    | inr wait ↦ cc
  ]

  pub take_char-head :
      (s : Cons) (c : ℕ) (rest : List ℕ)
      → IsValid s
      → contents s ≡ c ∷ rest
      → ((take_char s).0 ≡ c) × (contents (take_char s).1 ≡ rest)
  take_char-head s c rest v e = elim (contents-take_char s v) [
    | inl (none_wait, taken) ↦ absurd cc
    | inr wait ↦ (cc, cc)
  ]

  -- Let the buffer be empty and `k` polls in a row bring nothing, and let the poll behind them bring
  -- at most 511 bytes, the first of which is not 0. Then getchar, with fuel for the polls, returns:
  -- with that byte, and with the others in the buffer.
  pub getchar-waits :
      (g k c : ℕ) (rest : List ℕ) {d d1 d2 : D} (s : Cons)
      → IsValid s
      → contents s ≡ []
      → Silent d k d1
      → Polled d1 (c ∷ rest) d2
      → length (c ∷ rest) ≤ 511
      → c ≢ 0
      → k < g
      → (s' : Cons) × (console_getchar g d s ≡ some (c, (d2, s')))
        × IsValid s'
        × (contents s' ≡ rest)
  getchar-waits zero k c rest s v e silent p room nonzero fuel = absurd (omega arith)
  getchar-waits (suc g) zero c rest {d2 = d2} s v e (ready {d}) p room nonzero fuel =
      let (s', run, v', e') = poll_console-contents s p v e room in
      let (head, tail) = take_char-head s' c rest v' e' in
      (
        (take_char s').1,
        getchar-stop g (take_char s').0 poll_console (d, s) (d2, (take_char s').1) run
              (subst (λ x. x ≢ 0) (sym head) nonzero)
            ∙ ap (λ x. some (x, (d2, (take_char s').1))) head,
        take_char-IsValid s' v',
        tail,
      )
  getchar-waits (suc g) (suc k) c rest s v e (quiet {d} {d1} q silent) p room nonzero fuel =
      let (s', run, v', e') = poll_console-contents s q v e (omega arith) in
      let taken = take_char-empty s' v' e' in
      let (s'', run', v'', e'') =
        getchar-waits g k c rest s' v' e' silent p room nonzero (omega arith) in
      (
        s'',
        getchar-again g (take_char s').0 poll_console (d, s) (d1, (take_char s').1) run
              (ap (λ x. x.0) taken)
            ∙ ap (λ x. getchar g poll_console (d1, x.1)) taken
            ∙ run',
        v'',
        e'',
      )

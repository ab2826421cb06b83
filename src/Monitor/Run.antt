-- ===== src/Monitor/Run.antt =====
-- runcmd calls the first command whose name is the first word of the line.
use vukernelprogramming.Prelude.{
  ℕ, Option, zero, suc, ◌+◌, ◌≤◌, ◌<◌, ◌≡◌, ◌≢◌, refl, Bool, true, false, some, List, [], ◌∷◌,
  arith, ◌==◌, if◌then◌else◌, length, Bool-cases, inl, inr, ◌⊎◌, ◌∙◌, ap, subst,
}
use vukernelprogramming.Prelude.Int.{ℤ, pos, negsuc}
use vukernelprogramming.Memory.{Mem, CString}
use vukernelprogramming.Memory.Strings.{CString-same}
use vukernelprogramming.Str.Compare.{strcmp, compare_chars, strcmp-compare_chars, strcmp-eq_iff}
use vukernelprogramming.Monitor.{is_blank, Command, lookup, runcmd, parse_args, args}
use vukernelprogramming.Monitor.Words.{words, first_word, Strings}
use vukernelprogramming.Monitor.Parse.{parse_args-words}

-- equality of two lists of characters
abbrev pub same_chars : List ℕ → List ℕ → Bool
same_chars [] [] = true
same_chars [] (d ∷ ds) = false
same_chars (c ∷ cs) [] = false
same_chars (c ∷ cs) (d ∷ ds) = if c == d then same_chars cs ds else false

pub same_chars-eq : (cs ds : List ℕ) → same_chars cs ds ≡ true → cs ≡ ds
same_chars-eq [] [] h = refl
same_chars-eq [] (d ∷ ds) h = cc
same_chars-eq (c ∷ cs) [] h = cc
same_chars-eq (c ∷ cs) (d ∷ ds) h = ground (arith, same_chars-eq cs ds)

same_chars_self : (cs : List ℕ) → same_chars cs cs ≡ true
same_chars_self [] = refl
same_chars_self (c ∷ cs) = ground (arith, same_chars_self cs)

same_chars-ne : (cs ds : List ℕ) → same_chars cs ds ≡ false → cs ≢ ds
same_chars-ne cs ds h e = cc (subst (λ x. same_chars cs x ≡ true) e (same_chars_self cs))

module _ {E : Type 0} where
  -- the addresses of the names
  abbrev pub addresses : List (Command E) → List ℕ
  addresses [] = []
  addresses (c ∷ commands) = c.0 ∷ addresses commands

  -- the first command whose name is `w`, called with `argv`, or the message
  abbrev pub dispatch :
      (Mem → ℕ → E → E)
      → List (Command E)
      → List (List ℕ)
      → List ℕ
      → ℕ
      → List ℕ
      → Mem × E
      → Option (ℤ × Mem × E)
  dispatch unknown [] names w a argv (m, e) = some (pos 0, m, unknown m a e)
  dispatch unknown (c ∷ commands) [] w a argv (m, e) = some (pos 0, m, unknown m a e)
  dispatch unknown (c ∷ commands) (n ∷ names) w a argv x =
      if same_chars w n then c.1 argv x else dispatch unknown commands names w a argv x

  -- what a line of the words comes to
  abbrev pub called :
      (Mem → ℕ → E → E)
      → List (Command E)
      → List (List ℕ)
      → List (List ℕ)
      → List ℕ
      → Mem × E
      → Option (ℤ × Mem × E)
  called unknown commands names [] argv (m, e) = some (pos 0, m, e)
  called unknown commands names (w ∷ ws) [] (m, e) = some (pos 0, m, e)
  called unknown commands names (w ∷ ws) (a ∷ argv) x =
      dispatch unknown commands names w a (a ∷ argv) x

  module _ (f : ℕ) (unknown : Mem → ℕ → E → E) where
    lookup-other :
        (z : ℤ) (c : Command E) (commands : List (Command E)) (a : ℕ) (argv : List ℕ) (x : Mem × E)
        → strcmp f x.0 a c.0 ≡ some z
        → z ≢ pos 0
        → lookup f unknown (c ∷ commands) a argv x ≡ lookup f unknown commands a argv x
    unfolding lookup
    lookup-other (pos zero) c commands a argv x e n = absurd (n refl)
    lookup-other (pos (suc k)) c commands a argv x e n = rw (e, lookup) refl
    lookup-other (negsuc k) c commands a argv x e n = rw (e, lookup) refl

    lookup-dispatch :
        (commands : List (Command E)) (names : List (List ℕ)) (a : ℕ) (w argv : List ℕ) (m : Mem)
        (e : E)
        → Strings m (addresses commands) names
        → CString m a w
        → length w < f
        → lookup f unknown commands a argv (m, e) ≡ dispatch unknown commands names w a argv (m, e)
    unfolding lookup
    lookup-dispatch [] names a w argv m e s h fuel = refl
    lookup-dispatch (c ∷ commands) [] a w argv m e s h fuel = absurd s
    lookup-dispatch (c ∷ commands) (n ∷ names) a w argv m e s h fuel =
        elim (Bool-cases (same_chars w n)) [
          | inl same ↦
              let zero_diff : strcmp f m a c.0 ≡ some (pos 0) =
                (strcmp-eq_iff f m a c.0 w n h s.0 fuel).1 (same_chars-eq w n same) in
              rw (same, zero_diff, lookup) refl
          | inr other ↦
              let diff = strcmp-compare_chars f m a c.0 w n h s.0 fuel in
              let ne : compare_chars w n ≢ pos 0 = λ z.
                same_chars-ne w n other
                  ((strcmp-eq_iff f m a c.0 w n h s.0 fuel).0 (diff ∙ ap some z)) in
              rw other (
                lookup-other (compare_chars w n) c commands a argv (m, e) diff ne
                ∙ lookup-dispatch commands names a w argv m e s.1 h fuel)
        ]

-- each string lies outside the `n` bytes from `p` and its NUL
abbrev pub Apart : ℕ → ℕ → List ℕ → List (List ℕ) → Type 0
Apart p n [] ws = Unit {0}
Apart p n (q ∷ qs) [] = Unit {0}
Apart p n (q ∷ qs) (w ∷ ws) = ((q + length w < p) ⊎ (p + n ≤ q)) × Apart p n qs ws

pub Strings-same :
    (m m' : Mem) (p n : ℕ) (qs : List ℕ) (ws : List (List ℕ))
    → ((a : ℕ) → (a < p) ⊎ (p + n ≤ a) → m' a ≡ m a)
    → Apart p n qs ws
    → Strings m qs ws
    → Strings m' qs ws
Strings-same m m' p n [] [] h k s = tt
Strings-same m m' p n [] (w ∷ ws) h k s = s
Strings-same m m' p n (q ∷ qs) [] h k s = s
Strings-same m m' p n (q ∷ qs) (w ∷ ws) h k s = (
  CString-same m m' q w
      (λ a lo hi. elim k.0 [
        | inl before ↦ h a (inl (omega arith))
        | inr behind ↦ h a (inr (omega arith))
      ])
      s.0,
  Strings-same m m' p n qs ws h k.1 s.1,
)

abbrev head_length : List (List ℕ) → ℕ
head_length [] = 0
head_length (w ∷ ws) = length w

length-first_word : (cs : List ℕ) → length (first_word cs) ≤ length cs
length-first_word [] = omega arith
length-first_word (c ∷ cs) = ground (arith, length-first_word cs)

head_length-words : (b : Bool) (cs : List ℕ) → head_length (words b cs) ≤ length cs
head_length-words b [] = omega arith
head_length-words true (c ∷ cs) = elim (Bool-cases (is_blank c)) [
  | inl blank ↦ rw blank (omega (arith, head_length-words true cs))
  | inr other ↦ rw other (let e = length-first_word cs in omega arith)
]
head_length-words false (c ∷ cs) = elim (Bool-cases (is_blank c)) [
  | inl blank ↦ rw blank (omega (arith, head_length-words true cs))
  | inr other ↦ rw other (omega (arith, head_length-words false cs))
]

module _ {E : Type 0} (f : ℕ) (unknown : Mem → ℕ → E → E) (many : E → E)
    (commands : List (Command E)) (names : List (List ℕ)) where
  runcmd-args :
      (ws : List (List ℕ)) (argv : List ℕ) (m m' : Mem) (p : ℕ) (e : E)
      → parse_args f [] m p ≡ some (args argv m')
      → Strings m' argv ws
      → head_length ws < f
      → Strings m' (addresses commands) names
      → runcmd f unknown many commands p (m, e) ≡ called unknown commands names ws argv (m', e)
  unfolding runcmd
  runcmd-args [] [] m m' p e run s fuel named = rw (run, runcmd) refl
  runcmd-args [] (a ∷ argv) m m' p e run s fuel named = absurd s
  runcmd-args (w ∷ ws) [] m m' p e run s fuel named = absurd s
  runcmd-args (w ∷ ws) (a ∷ argv) m m' p e run s fuel named =
      rw (run, runcmd) (lookup-dispatch f unknown commands names a w (a ∷ argv) m' e named s.0 fuel)

  -- The names of the commands stand in memory apart from the line, which is shorter than the fuel
  -- less one. If the line has at most 15 words, runcmd comes to a call of the first command that
  -- has the first word as its name, on one address for each word, at which the memory holds the
  -- word; with the message for an unknown command, if none has; and with nothing done, if the line
  -- has no word. If it has more than 15, runcmd prints the message for that and returns 0.
  pub runcmd-called :
      (m : Mem) (p : ℕ) (cs : List ℕ) (e : E)
      → CString m p cs
      → length cs + 1 < f
      → Strings m (addresses commands) names
      → Apart p (length cs) (addresses commands) names
      → (length (words true cs) ≤ 15
          → (m' : Mem) × (argv : List ℕ) × Strings m' argv (words true cs)
            × ((a : ℕ) → (a < p) ⊎ (p + length cs ≤ a) → m' a ≡ m a)
            × (runcmd f unknown many commands p (m, e)
                ≡ called unknown commands names (words true cs) argv (m', e)))
        × (15 < length (words true cs)
            → (m' : Mem) × (runcmd f unknown many commands p (m, e) ≡ some (pos 0, m', many e)))
  unfolding runcmd
  runcmd-called m p cs e h fuel named apart =
      let (few, lots) = parse_args-words f m p cs h fuel in
      (
        λ k.
            let (m', argv, run, s, same) = few k in
            (
              m',
              argv,
              s,
              same,
              runcmd-args (words true cs) argv m m' p e run s
                  (omega (arith, head_length-words true cs))
                  (Strings-same m m' p (length cs) (addresses commands) names same apart named),
            ),
        λ k. let (m', run) = lots k in (m', rw (run, runcmd) refl),
      )

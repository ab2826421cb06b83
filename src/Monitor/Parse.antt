-- ===== src/Monitor/Parse.antt =====
-- The parser of runcmd finds the words of the line.
use vukernelprogramming.Prelude.{
  ℕ, zero, suc, ◌+◌, ◌≤◌, ◌<◌, ◌≡◌, ◌≢◌, refl, Bool, true, false, some, List, [], ◌∷◌, ◌++◌, arith,
  ◌==◌, if◌then◌else◌, length, Bool-cases, inl, inr, ◌⊎◌, ◌∙◌, ap, sym, subst, length-append,
}
use mathlib.Core.List.{append-nil, append_assoc}
use vukernelprogramming.Memory.{Mem, CString}
use vukernelprogramming.Monitor.{is_blank, gobble, scan_arg, too_many, args, parse_args}
use vukernelprogramming.Monitor.Words.{starts, words, Strings, words-Strings}
use vukernelprogramming.Monitor.Scan.{
  Changed, Changed-none, Changed-trans, StartsWord, gobble-line, scan_arg-line,
}

-- what is left of the parsing of a line, behind the arguments `argv`
ParsesAs : ℕ → List ℕ → Mem → ℕ → List ℕ → Type 0
ParsesAs f argv m p cs =
    (length argv + length (starts true p cs) ≤ 15
      → (m' : Mem) × (parse_args f argv m p ≡ some (args (argv ++ starts true p cs) m'))
        × Changed m m' p (p + length cs))
    × (15 < length argv + length (starts true p cs)
        → (m' : Mem) × (e : ℕ) × (parse_args f argv m p ≡ some (too_many m'))
          × (p ≤ e)
          × (e ≤ p + length cs)
          × Changed m m' p e)

-- the line ends behind the blanks
parse_args-end :
    (f : ℕ) (argv : List ℕ) (m m1 : Mem) (p e : ℕ)
    → gobble f m p ≡ some (m1, e)
    → m1 e ≡ 0
    → parse_args (suc f) argv m p ≡ some (args argv m1)
unfolding parse_args
parse_args-end f argv m m1 p e run z =
    let nul : (m1 e == 0) ≡ true = ground arith in rw (run, parse_args) (rw nul refl)

parse_args-full :
    (f : ℕ) (argv : List ℕ) (m m1 : Mem) (p e : ℕ)
    → gobble f m p ≡ some (m1, e)
    → m1 e ≢ 0
    → length argv ≡ 15
    → parse_args (suc f) argv m p ≡ some (too_many m1)
unfolding parse_args
parse_args-full f argv m m1 p e run nz full =
    let more : (m1 e == 0) ≡ false = ground arith in
    let at_max : (length argv + 1 == 16) ≡ true = ground arith in
    rw (run, parse_args) (rw (more, at_max) refl)

parse_args-word :
    (f : ℕ) (argv : List ℕ) (m m1 : Mem) (p e q : ℕ)
    → gobble f m p ≡ some (m1, e)
    → m1 e ≢ 0
    → length argv < 15
    → scan_arg f m1 e ≡ some q
    → parse_args (suc f) argv m p ≡ parse_args f (argv ++ (e ∷ [])) m1 q
unfolding parse_args
parse_args-word f argv m m1 p e q run nz room scanned =
    let more : (m1 e == 0) ≡ false = ground arith in
    let below : (length argv + 1 == 16) ≡ false = ground arith in
    rw (run, parse_args) (rw (more, below, scanned) refl)

parse_args-ParsesAs :
    (f : ℕ) (argv : List ℕ) (m : Mem) (p : ℕ) (cs : List ℕ)
    → CString m p cs
    → length cs + 1 < f
    → length argv ≤ 15
    → ParsesAs f argv m p cs
unfolding ParsesAs
parse_args-ParsesAs zero argv m p cs h fuel room = absurd (omega arith)
parse_args-ParsesAs (suc f) argv m p cs h fuel room =
    let (m1, e, cs1, run, lo, len, changed, str, same, word) =
      gobble-line f m p cs h (omega arith) in
    subst
      (λ s.
        (length argv + length s ≤ 15
          → (m' : Mem) × (parse_args (suc f) argv m p ≡ some (args (argv ++ s) m'))
            × Changed m m' p (p + length cs))
        × (15 < length argv + length s
            → (m' : Mem) × (q : ℕ) × (parse_args (suc f) argv m p ≡ some (too_many m'))
              × (p ≤ q)
              × (q ≤ p + length cs)
              × Changed m m' p q))
      (sym same) (at_word (parse_args-ParsesAs f) cs1 m1 e run lo len changed str word)
  where
    at_word :
        ((argv' : List ℕ) (m1 : Mem) (q : ℕ) (cs' : List ℕ)
          → CString m1 q cs'
          → length cs' + 1 < f
          → length argv' ≤ 15
          → ParsesAs f argv' m1 q cs')
        → (cs1 : List ℕ) (m1 : Mem) (e : ℕ) → gobble f m p ≡ some (m1, e)
        → p ≤ e
        → e + length cs1 ≡ p + length cs
        → Changed m m1 p e
        → CString m1 e cs1
        → StartsWord cs1
        → (length argv + length (starts true e cs1) ≤ 15
            → (m' : Mem) × (parse_args (suc f) argv m p
                ≡ some (args (argv ++ starts true e cs1) m'))
              × Changed m m' p (p + length cs))
          × (15 < length argv + length (starts true e cs1)
              → (m' : Mem) × (q : ℕ) × (parse_args (suc f) argv m p ≡ some (too_many m'))
                × (p ≤ q)
                × (q ≤ p + length cs)
                × Changed m m' p q)
    at_word ih [] m1 e run lo len changed str word = (
      λ _. (
        m1,
        parse_args-end f argv m m1 p e run str
            ∙ ap (λ xs. some (args xs m1)) (sym (append-nil argv)),
        subst (Changed m m1 p) (omega arith) changed,
      ),
      λ many. absurd (omega arith),
    )
    at_word ih (c ∷ cs2) m1 e run lo len changed str word =
        let nz : m1 e ≢ 0 = ground arith in
        let here : is_blank (m1 e) ≡ false = rw (str.0) word in
        let (q, cs3, scanned, eq, len', str', same, clear, on) =
          scan_arg-line f m1 e (c ∷ cs2) str (omega arith) in
        let rest : starts false (e + 1) cs2 ≡ starts true q cs3 = rw word at same in
        let past : e < q = on here nz in
        let step : length (argv ++ (e ∷ [])) ≡ length argv + 1 = length-append argv (e ∷ []) in
        let joined : (s : List ℕ) → (argv ++ (e ∷ [])) ++ s ≡ argv ++ (e ∷ s) =
          λ s. append_assoc argv (e ∷ []) s in
        let unchanged : Changed m1 m1 e q = Changed-none m1 e q clear in
        let up_to : Changed m m1 p q = Changed-trans m m1 m1 p e q lo eq changed unchanged in
        rw (word, rest)
          (
            λ few.
                let more =
                  ih (argv ++ (e ∷ [])) m1 q cs3 str' (omega arith) (omega (arith, step)) in
                let (m', ends, final) = more.0 (omega (arith, step)) in
                (
                  m',
                  parse_args-word f argv m m1 p e q run nz (omega arith) scanned
                      ∙ ends
                      ∙ ap (λ xs. some (args xs m')) (joined (starts true q cs3)),
                  Changed-trans m m1 m' p q (p + length cs) (omega arith) (omega arith) up_to
                      (subst (Changed m1 m' q) (omega arith) final),
                ),
            λ many. elim (Bool-cases (length argv == 15)) [
              | inl full ↦ (
                m1,
                e,
                parse_args-full f argv m m1 p e run nz (ground arith),
                lo,
                omega arith,
                changed,
              )
              | inr room' ↦
                  let more =
                    ih (argv ++ (e ∷ [])) m1 q cs3 str' (omega arith) (ground (arith, step)) in
                  let (m', r, ends, lo', hi', final) = more.1 (omega (arith, step)) in
                  (
                    m',
                    r,
                    parse_args-word f argv m m1 p e q run nz (ground arith) scanned ∙ ends,
                    omega arith,
                    omega arith,
                    Changed-trans m m1 m' p q r (omega arith) lo' up_to final,
                  )
            ],
          )

length-starts : (b : Bool) (p : ℕ) (cs : List ℕ) → length (starts b p cs) ≡ length (words b cs)
length-starts b p [] = refl
length-starts true p (c ∷ cs) =
    ground (arith, length-starts true (p + 1) cs, length-starts false (p + 1) cs)
length-starts false p (c ∷ cs) =
    ground (arith, length-starts true (p + 1) cs, length-starts false (p + 1) cs)

CString-end : (m : Mem) (p : ℕ) (cs : List ℕ) → CString m p cs → m (p + length cs) ≡ 0
CString-end m p [] h = ground arith
CString-end m p (c ∷ cs) h =
    let e : p + suc (length cs) ≡ p + 1 + length cs = omega arith in
    rw e (CString-end m (p + 1) cs h.2)

Changed-Blanked :
    (m m' : Mem) (p n : ℕ)
    → Changed m m' p (p + n)
    → m (p + n) ≡ 0
    → (a : ℕ) → p ≤ a
    → a < p + n + 1
    → m' a ≡ (if is_blank (m a) then 0 else m a)
Changed-Blanked m m' p n h z a lo hi = elim (Bool-cases (a == p + n)) [
  | inl end ↦ let e : a ≡ p + n = ground arith in rw e (h (p + n) ∙ rw z (ground arith))
  | inr before ↦ h a ∙ ground arith
]

-- A line of characters, in fewer characters than the fuel less one: if it has at most 15 words, the
-- parser of runcmd ends with one address for each word, at which the memory then holds the word as a
-- string, and memory outside the line is as it was; if it has more, the parser refuses it.
pub parse_args-words :
    (f : ℕ) (m : Mem) (p : ℕ) (cs : List ℕ)
    → CString m p cs
    → length cs + 1 < f
    → (length (words true cs) ≤ 15
        → (m' : Mem) × (argv : List ℕ) × (parse_args f [] m p ≡ some (args argv m'))
          × Strings m' argv (words true cs)
          × ((a : ℕ) → (a < p) ⊎ (p + length cs ≤ a) → m' a ≡ m a))
      × (15 < length (words true cs) → (m' : Mem) × (parse_args f [] m p ≡ some (too_many m')))
unfolding ParsesAs
parse_args-words f m p cs h fuel =
    let (few, many) = parse_args-ParsesAs f [] m p cs h fuel (omega arith) in
    let n = length-starts true p cs in
    (
      λ k.
          let (m', run, changed) = few (omega (arith, n)) in
          (
            m',
            starts true p cs,
            run,
            words-Strings m m' p cs h
                (Changed-Blanked m m' p (length cs) changed (CString-end m p cs h)),
            λ a out. changed a ∙ elim out [ inl before ↦ ground arith | inr behind ↦ ground arith ],
          ),
      λ k. let over = many (omega (arith, n)) in (over.0, over.2),
    )

-- ===== src/Kdebug/Eip/Answers.antt =====
-- What debuginfo_eip (kern/kdebug.c) answers for a table in order, and the file stab of a line.
use vukernelprogramming.Prelude.{
  ℕ, zero, suc, ◌+◌, ◌-◌, ◌≤◌, ◌<◌, ◌≡◌, refl, true, false, some, List, ltb, ◌==◌, arith,
  if◌then◌else◌, Bool-cases, inl, inr, sym, subst,
}
use vukernelprogramming.Str.Scan.{index_of}
use vukernelprogramming.Kdebug.{Stabs}
use vukernelprogramming.Kdebug.Search.Scans.{NoStab}
use vukernelprogramming.Kdebug.Search.Rounds.{Gap}
use vukernelprogramming.Kdebug.Search.Sorted.{AtOrBelow, IsSorted}
use vukernelprogramming.Kdebug.Eip.{
  n_fun, n_sline, n_so, Tables, Name, unknown, at, Info, names_file, file_stab,
}

eq_of : (a b : ℕ) → (a == b) ≡ true → a ≡ b
eq_of a b h = ground arith

last_differs :
    (stabs : Stabs) (lfile l : ℕ)
    → names_file stabs lfile ≡ true
    → names_file stabs (suc l) ≡ false
    → lfile ≡ suc l
    → ⊥
last_differs stabs lfile l h other e = cc (subst (λ x. names_file stabs x ≡ true) e h)

-- the last stab at or below `l` that names a file
pub file_stab-last :
    (stabs : Stabs) (lfile l : ℕ)
    → names_file stabs lfile ≡ true
    → lfile ≤ l
    → (x : ℕ) × (file_stab stabs lfile l ≡ some x)
      × (lfile ≤ x)
      × (x ≤ l)
      × (names_file stabs x ≡ true)
      × ((y : ℕ) → x < y → y ≤ l → names_file stabs y ≡ false)
unfolding file_stab
file_stab-last stabs lfile zero h le =
    let z : lfile ≡ 0 = omega arith in
    let h0 : names_file stabs 0 ≡ true = subst (λ x. names_file stabs x ≡ true) z h in
    (0, rw (z, h0) refl, omega arith, omega arith, h0, λ y lo hi. absurd (omega arith))
file_stab-last stabs lfile (suc l) h le =
    let on : ltb (suc l) lfile ≡ false = ground arith in
    elim (Bool-cases (names_file stabs (suc l))) [
      | inl here ↦
          (suc l, rw (on, here) refl, le, omega arith, here, λ y lo hi. absurd (omega arith))
      | inr other ↦
          let below : lfile ≤ l = elim (Bool-cases (lfile == suc l)) [
            | inl same ↦ absurd (last_differs stabs lfile l h other (ground arith))
            | inr more ↦ ground arith
          ] in
          let (x, e, lo, hi, named, after) = file_stab-last stabs lfile l h below in
          (
            x,
            rw (on, other) e,
            lo,
            omega arith,
            named,
            λ y ylo yhi. elim (Bool-cases (y == suc l)) [
              | inl same ↦
                  subst (λ z. names_file stabs z ≡ false) (sym (eq_of y (suc l) same)) other
              | inr less ↦ after y ylo (ground arith)
            ],
          )
    ]

-- the table is in order, and no stab that a search meets starts one byte behind its address
pub record IsOrdered (t : Tables) (addr j stop : ℕ) : Type 0 where
  pub files : IsSorted t.stabs n_so 0 t.count
  pub functions : IsSorted t.stabs n_fun 0 t.count
  pub lines : IsSorted t.stabs n_sline j stop
  pub file_gap : Gap t.stabs n_so 0 t.count addr
  pub function_gap : Gap t.stabs n_fun 0 t.count addr
  pub line_gap : Gap t.stabs n_sline j stop (addr - (t.stabs j).n_value)

-- `l` is the last line stab of the function at or below the address, and no line stab stands
-- between it and `r`
abbrev pub LineAt : Tables → ℕ → ℕ → ℕ → ℕ → ℕ → Type 0
LineAt t rel j stop l r =
    (j ≤ l)
    × (l ≤ r)
    × (r < stop)
    × AtOrBelow t.stabs n_sline rel l
    × ((x : ℕ) → j ≤ x → x < stop → AtOrBelow t.stabs n_sline rel x → x ≤ l)
    × NoStab t.stabs n_sline (suc l) (suc r)

-- `x` is the last stab of [i, l] that names a file, and gives the name
abbrev FileAt : Tables → ℕ → ℕ → Name → Type 0
FileAt t i l name =
    (x : ℕ) × (i ≤ x)
    × (x ≤ l)
    × (names_file t.stabs x ≡ true)
    × ((y : ℕ) → x < y → y ≤ l → names_file t.stabs y ≡ false)
    × (name ≡ (
        if ltb (t.stabs x).n_strx (t.stabstr_end - t.stabstr)
        then at (t.stabstr + (t.stabs x).n_strx)
        else unknown))

-- what is known of the answer
pub record Answers (t : Tables) (addr i j stop : ℕ) (cs : List ℕ) (l r : ℕ) (info : Info)
    : Type 0 where
  pub line : LineAt t (addr - (t.stabs j).n_value) j stop l r
  pub eip_line : info.eip_line ≡ (t.stabs r).n_desc
  pub fn_addr : info.eip_fn_addr ≡ (t.stabs j).n_value
  pub fn_name : info.eip_fn_name ≡ at (t.stabstr + (t.stabs j).n_strx)
  pub fn_namelen : info.eip_fn_namelen ≡ index_of b':' cs
  pub file : FileAt t i l info.eip_file

-- ===== src/Tests/Eip.antt =====
-- debuginfo_eip on a table of eight stabs.
use vukernelprogramming.Prelude.{ℕ, ◌≡◌, refl, some, [], ◌∷◌, arith, if◌then◌else◌, ◌==◌, inr}
use vukernelprogramming.Prelude.Int.{pos}
use vukernelprogramming.Memory.{Mem}
use vukernelprogramming.Str.Scan.{strfind}
use vukernelprogramming.Kdebug.{Stabs}
use vukernelprogramming.Kdebug.Search.{stab_binsearch}
use vukernelprogramming.Kdebug.Eip.{Tables, Info, at, returns, debuginfo_eip}
use vukernelprogramming.Kdebug.Eip.Places.{Place}
use vukernelprogramming.Kdebug.Eip.Answers.{IsOrdered, Answers}
use vukernelprogramming.Kdebug.Eip.Finds.{debuginfo_eip-finds}

-- a file, a function with a parameter, two lines and a block, and the next function
abbrev types : ℕ → ℕ
types i =
    if i == 1
    then 0x64
    else if i == 2
    then 0x24
    else if i == 3
    then 0xa0
    else if i == 4
    then 0x44
    else if i == 5
    then 0x44
    else if i == 6
    then 0xc0
    else if i == 7
    then 0x24
    else 0

abbrev values : ℕ → ℕ
values i =
    if i == 1
    then 0xf0100000
    else if i == 2
    then 0xf0100010
    else if i == 5
    then 8
    else if i == 7
    then 0xf0100040
    else 0

abbrev strings : ℕ → ℕ
strings i = if i == 1 then 1 else if i == 2 then 8 else 0

abbrev line_numbers : ℕ → ℕ
line_numbers i = if i == 4 then 10 else if i == 5 then 11 else 0

abbrev eight : Stabs
eight i = record {
  n_strx = strings i;
  n_type = types i;
  n_other = 0;
  n_desc = line_numbers i;
  n_value = values i;
}

-- the name "m:F" stands at 8 in the string table
abbrev names : Mem
names a =
    if a == 0xf0200008
    then b'm'
    else if a == 0xf0200009
    then b':'
    else if a == 0xf020000a
    then b'F'
    else 0

abbrev pub tables : Tables
tables = record {
  stabs = eight;
  count = 8;
  mem = names;
  stabstr = 0xf0200000;
  stabstr_end = 0xf0200010;
}

abbrev pub answer : Info
answer = record {
  eip_file = at 0xf0200001;
  eip_line = 0;
  eip_fn_name = at 0xf0200008;
  eip_fn_namelen = 1;
  eip_fn_addr = 0xf0100010;
  eip_fn_narg = 1;
}

-- the address stands in line 11, and the answer has the line 0 of the stab for the block
pub eip_run : debuginfo_eip tables 12 0xf0100020 ≡ some (returns (pos 0) answer)
unfolding debuginfo_eip stab_binsearch strfind
eip_run = refl

eight-Place : Place eight 8 0xf0100020 1 2 7
eight-Place = record {
  file = (refl, omega arith);
  function = (refl, omega arith);
  order = (omega arith, omega arith, omega arith);
  no_file = λ i lo hi e. absurd (ground arith);
  no_function = λ i lo hi e. absurd (ground arith);
  last_file = λ x lo hi e. absurd (ground arith);
  last_function = λ x lo hi e. ground arith;
  ends = inr (inr refl);
}

eight-IsOrdered : IsOrdered tables 0xf0100020 2 7
eight-IsOrdered = record {
  files = λ i j lo le hi e f. ground arith;
  functions = λ i j lo le hi e f. ground arith;
  lines = λ i j lo le hi e f. ground arith;
  file_gap = λ i lo hi e v. absurd (ground arith);
  function_gap = λ i lo hi e v. absurd (ground arith);
  line_gap = λ i lo hi e v. absurd (ground arith);
}

debuginfo_eip-finds_example :
    (l : ℕ) × (r : ℕ) × (info : Info) × (debuginfo_eip tables 12 0xf0100020
      ≡ some (returns (pos 0) info))
    × Answers tables 0xf0100020 1 2 7 (b'm' ∷ b':' ∷ b'F' ∷ []) l r info
debuginfo_eip-finds_example =
    debuginfo_eip-finds tables 12 0xf0100020 0 2 7 4 (b'm' ∷ b':' ∷ b'F' ∷ []) (omega arith)
      (omega arith) (omega arith) refl eight-Place eight-IsOrdered (λ e. absurd (omega arith))
      (omega arith)
      (
        refl,
        (λ e. absurd (omega arith)),
        (refl, (λ e. absurd (omega arith)), (refl, (λ e. absurd (omega arith)), refl)),
      )
      (omega arith) (omega arith) (omega arith) (omega arith) (refl, omega arith)

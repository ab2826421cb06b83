-- ===== src/Kdebug/Eip.antt =====
-- debuginfo_eip of kern/kdebug.c. The tables that the linker makes are an argument. `none` says that
-- the fuel of a search ran out.
pub mod Places
pub mod Answers
pub mod Finds
use mathlib.Core.Option
use vukernelprogramming.Prelude.{
  ℕ, zero, suc, ◌+◌, ◌-◌, ◌%◌, ◌^◌, Bool, true, false, ◌&&◌, ◌||◌, not, Option, none, some, ltb,
  leb, ◌==◌, if◌then◌else◌,
}
use vukernelprogramming.Prelude.Int.{ℤ, pos, negsuc, pred_ℕ, pos_part, above}
use vukernelprogramming.Memory.{Mem}
use vukernelprogramming.Str.Scan.{strfind}
use vukernelprogramming.Kdebug.{Stabs}
use vukernelprogramming.Kdebug.Search.{Region, stab_binsearch}

abbrev pub n_fun : ℕ
n_fun = 0x24

abbrev pub n_sline : ℕ
n_sline = 0x44

abbrev pub n_so : ℕ
n_so = 0x64

abbrev pub n_sol : ℕ
n_sol = 0x84

abbrev pub n_psym : ℕ
n_psym = 0xa0

abbrev pub ulim : ℕ
ulim = 0xef800000

-- __STAB_BEGIN__ and the number of its entries, and the string table in memory
pub record Tables : Type 0 where
  pub stabs : Stabs
  pub count : ℕ
  pub mem : Mem
  pub stabstr : ℕ
  pub stabstr_end : ℕ

-- a name: the literal "<unknown>", or a string in memory
pub data Name : Type 0 where
  unknown : Name
  at : ℕ → Name

-- struct eip_debuginfo
pub record Info : Type 0 where
  pub eip_file : Name
  pub eip_line : ℕ
  pub eip_fn_name : Name
  pub eip_fn_namelen : ℕ
  pub eip_fn_addr : ℕ
  pub eip_fn_narg : ℕ

-- how the function ends; `outside` is a read in front of the table of stabs
pub data Answer : Type 0 where
  user_address outside : Answer
  returns : ℤ → Info → Answer

unfoldable pub start_info : ℕ → Info
start_info addr = record {
  eip_file = unknown;
  eip_line = 0;
  eip_fn_name = unknown;
  eip_fn_namelen = 9;
  eip_fn_addr = addr;
  eip_fn_narg = 0;
}

-- a stab that gives the name of the file for the lines behind it
abbrev pub names_file : Stabs → ℕ → Bool
names_file stabs l =
    ((stabs l).n_type == n_sol) || (((stabs l).n_type == n_so) && not ((stabs l).n_value == 0))

-- while (lline >= lfile && …) lline--; `none` is an lline below lfile
unfoldable pub file_stab : Stabs → ℕ → ℕ → Option ℕ
file_stab stabs lfile zero = if (lfile == 0) && names_file stabs 0 then some 0 else none
file_stab stabs lfile (suc l) =
    let rest = file_stab stabs lfile l in
    if ltb (suc l) lfile then none else if names_file stabs (suc l) then some (suc l) else rest

-- for (lline = lfun + 1; lline < rfun && type is N_PSYM; lline++), with `left` = rfun - lline
unfoldable pub count_args : Stabs → ℕ → ℕ → ℕ
count_args stabs zero l = 0
count_args stabs (suc left) l =
    let rest = count_args stabs left (l + 1) in if (stabs l).n_type == n_psym then 1 + rest else 0

-- what the search for the function leaves: where to look for the line, and by which address
pub record Found : Type 0 where
  pub info : Info
  pub lline : ℕ
  pub rline : ℤ
  pub addr : ℕ

module _ (t : Tables) where
  open t use {stabs, count, mem, stabstr, stabstr_end}

  -- the test against the size of the string table
  name_at : ℕ → Name → Name
  name_at i default =
      if ltb (stabs i).n_strx (stabstr_end - stabstr)
      then at (stabstr + (stabs i).n_strx)
      else default

  -- if (lfun <= rfun) …, with lfun not negative
  function_part : ℕ → ℤ → ℕ → ℤ → ℕ → Found
  unfolding start_info name_at
  function_part lfile rfile lfun rfun addr =
      if ltb lfun (above rfun)
      then record {
        info = record (start_info addr) {
          eip_fn_name = name_at lfun unknown;
          eip_fn_addr = (stabs lfun).n_value;
        };
        lline = lfun;
        rline = rfun;
        addr = (addr + 2 ^ 32 - (stabs lfun).n_value) % 2 ^ 32;
      }
      else record { info = start_info addr; lline = lfile; rline = rfile; addr = addr }

  -- strfind(info->eip_fn_name, ':') - info->eip_fn_name
  name_length : ℕ → Name → Option ℕ
  name_length f unknown = some 9
  name_length f (at p) = Option.map (λ q. q - p) (strfind f mem p b':')

  -- the part behind the search for the line, in the region [l, r]
  line_part : ℕ → ℕ → ℤ → ℕ → ℕ → Info → Answer
  unfolding file_stab count_args name_at
  line_part lfile lfun rfun l r info =
      let file : Name = elim (file_stab stabs lfile l) [
        | none ↦ info.eip_file
        | some x ↦ name_at x info.eip_file
      ] in
      returns (pos 0) (record info {
        eip_line = (stabs r).n_desc;
        eip_file = file;
        eip_fn_narg = info.eip_fn_narg + count_args stabs (pos_part rfun - (lfun + 1)) (lfun + 1);
      })

  -- if (lline > rline) return -1; and a negative index is in front of the table
  line_region : ℕ → ℕ → ℤ → Region → Info → Answer
  unfolding line_part
  line_region lfile lfun rfun region info = elim region.left [
    | negsuc n ↦ outside
    | pos l ↦
        if ltb l (above region.right)
        then line_part lfile lfun rfun l (pos_part region.right) info
        else returns (negsuc 0) info
  ]

  -- behind the search for the function
  with_function : ℕ → ℕ → ℤ → ℕ → ℤ → ℕ → Option Answer
  unfolding function_part name_length line_region
  with_function f lfile rfile lfun rfun addr =
      let found = function_part lfile rfile lfun rfun addr in
      elim (name_length f found.info.eip_fn_name) [
        | none ↦ none
        | some n ↦ elim (stab_binsearch stabs n_sline f found.lline found.rline found.addr) [
          | none ↦ none
          | some region ↦
              some (line_region lfile lfun rfun region (record (found.info) { eip_fn_namelen = n }))
        ]
      ]

  -- behind the search for the file
  with_file : ℕ → ℕ → ℤ → ℕ → Option Answer
  unfolding with_function
  with_file f lfile rfile addr = elim (stab_binsearch stabs n_fun f lfile rfile addr) [
    | none ↦ none
    | some region ↦ elim region.left [
      | negsuc n ↦ some outside
      | pos lfun ↦ with_function f lfile rfile lfun region.right addr
    ]
  ]

  unfoldable pub debuginfo_eip : ℕ → ℕ → Option Answer
  unfolding start_info with_file
  debuginfo_eip f addr =
      let searched : Option Answer = elim (stab_binsearch stabs n_so f 0 (pred_ℕ count) addr) [
        | none ↦ none
        | some region ↦ elim region.left [
          | negsuc n ↦ some outside
          | pos zero ↦ some (returns (negsuc 0) (start_info addr))
          | pos (suc i) ↦ with_file f (suc i) region.right addr
        ]
      ] in
      if ltb addr ulim
      then some user_address
      else if leb stabstr_end stabstr || not (mem (stabstr_end - 1) == 0)
      then some (returns (negsuc 0) (start_info addr))
      else searched

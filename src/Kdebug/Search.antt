-- ===== src/Kdebug/Search.antt =====
-- stab_binsearch of kern/kdebug.c. The left index and the middle are natural numbers, the right
-- index can become -1 and is an int. `none` says that the fuel ran out.
pub mod Scans
pub mod Invariant
pub mod Rounds
pub mod Outcome
pub mod Sorted
use vukernelprogramming.Prelude.{
  ℕ, zero, suc, ◌+◌, ◌/◌, ◌%◌, ◌^◌, Bool, true, false, ◌&&◌, not, Option, none, some, leb, ltb,
  ◌==◌, if◌then◌else◌,
}
use vukernelprogramming.Prelude.Int.{ℤ, pos, negsuc, pred_ℕ}
use vukernelprogramming.Kdebug.{Stab, Stabs}

-- the local variables of the search, and the two indices that it writes through pointers
pub record Search : Type 0 where
  pub l : ℕ
  pub r : ℤ
  pub any_matches : Bool
  pub region_left : ℕ
  pub region_right : ℤ
  pub addr : ℕ

pub record Region : Type 0 where
  pub left : ℤ
  pub right : ℤ

-- what the three cases of the binary step assign
abbrev pub go_right : Search → ℕ → ℕ → Search
go_right s true_m m = record s { any_matches = true; region_left = m; l = true_m + 1 }

abbrev pub go_left : Search → ℕ → Search
go_left s m = record s { any_matches = true; region_right = pred_ℕ m; r = pred_ℕ m }

abbrev pub go_exact : Search → ℕ → Search
go_exact s m = record s { any_matches = true; region_left = m; l = m; addr = (s.addr + 1) % 2 ^ 32 }

module _ (stabs : Stabs) (type : ℕ) where
  -- while (m >= l && stabs[m].n_type != type) m--; `none` is an m below l
  unfoldable pub scan : ℕ → ℕ → Option ℕ
  scan l zero = if (l == 0) && ((stabs 0).n_type == type) then some 0 else none
  scan l (suc m) =
      let rest = scan l m in
      if ltb (suc m) l then none else if (stabs (suc m)).n_type == type then some (suc m) else rest

  -- the binary step, at the stab found
  pub probe : Search → ℕ → ℕ → Search
  probe s true_m m =
      let v = (stabs m).n_value in
      if ltb v s.addr
      then go_right s true_m m
      else if ltb s.addr v
      then go_left s m
      else go_exact s m

  -- one pass through the body of the loop, at r
  pub round : Search → ℕ → Search
  round s r =
      let true_m = (s.l + r) / 2 in
      elim (scan s.l true_m) [ none ↦ record s { l = true_m + 1 } | some m ↦ probe s true_m m ]

  -- while (l <= r)
  pub loop : ℕ → Search → Option Search
  loop zero s = none
  loop (suc f) s = elim s.r [
    | negsuc n ↦ some s
    | pos r ↦ let rest = loop f (round s r) in if leb s.l r then rest else some s
  ]

  -- for (l = *region_right; l > *region_left && stabs[l].n_type != type; l--);
  pub back : ℕ → ℕ → ℕ
  back left zero = 0
  back left (suc l) =
      let rest = back left l in
      if ltb left (suc l) && not ((stabs (suc l)).n_type == type) then rest else suc l

  pub back_int : ℕ → ℤ → ℤ
  back_int left (pos l) = pos (back left l)
  back_int left (negsuc n) = negsuc n

  pub finish : Search → Region
  finish s =
      if s.any_matches
      then record { left = back_int s.region_left s.region_right; right = s.region_right }
      else record { left = pos s.region_left; right = pred_ℕ s.region_left }

  pub start : ℕ → ℤ → ℕ → Search
  start left right addr = record {
    l = left;
    r = right;
    any_matches = false;
    region_left = left;
    region_right = right;
    addr = addr;
  }

  unfoldable pub stab_binsearch : ℕ → ℕ → ℤ → ℕ → Option Region
  unfolding scan probe round loop back back_int finish start
  stab_binsearch f left right addr = elim (loop f (start left right addr)) [
    | none ↦ none
    | some s ↦ some (finish s)
  ]

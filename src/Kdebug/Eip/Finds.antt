-- ===== src/Kdebug/Eip/Finds.antt =====
-- debuginfo_eip on an address in a function of a table of symbols in order.
use vukernelprogramming.Prelude.{
  ℕ, suc, ◌+◌, ◌-◌, ◌%◌, ◌^◌, ◌≤◌, ◌<◌, ◌≡◌, ◌≢◌, refl, true, false, some, List, ltb, leb, arith,
  ap, ◌∙◌, length,
}
use vukernelprogramming.Prelude.Int.{ℤ, pos, negsuc, above, pos_part, pred_ℕ}
use vukernelprogramming.Memory.{CString}
use vukernelprogramming.Str.Scan.{index_of, strchr-strfind}
use vukernelprogramming.Kdebug.Search.{Region, stab_binsearch}
use vukernelprogramming.Kdebug.Search.Sorted.{AtOrBelow}
use vukernelprogramming.Kdebug.Eip.{
  n_fun, n_sline, n_so, ulim, Tables, unknown, at, Info, returns, start_info, names_file,
  count_args, name_at, function_part, name_length, line_part, line_region, with_function, with_file,
  debuginfo_eip,
}
use vukernelprogramming.Kdebug.Eip.Places.{Place, find_file, find_function, find_line}
use vukernelprogramming.Kdebug.Eip.Answers.{file_stab-last, IsOrdered, LineAt, Answers}

above-pos : (r : ℤ) → 0 < above r → above r ≡ suc (pos_part r)
above-pos (pos n) h = refl
above-pos (negsuc n) h = absurd (omega arith)

module _ (t : Tables) (f addr : ℕ) where
  -- one lemma for each part, with the result of its search
  debuginfo_eip-file :
      (i : ℕ) (res : Region)
      → ulim ≤ addr
      → t.stabstr < t.stabstr_end
      → t.mem (t.stabstr_end - 1) ≡ 0
      → stab_binsearch t.stabs n_so f 0 (pred_ℕ t.count) addr ≡ some res
      → res.left ≡ pos (suc i)
      → debuginfo_eip t f addr ≡ with_file t f (suc i) res.right addr
  unfolding debuginfo_eip
  debuginfo_eip-file i res kernel size nul run l =
      let high : ltb addr ulim ≡ false = ground arith in
      let some_strings : leb t.stabstr_end t.stabstr ≡ false = ground arith in
      simp (high, some_strings, nul, run, l, debuginfo_eip)

  with_file-function :
      (lfile j : ℕ) (rfile : ℤ) (res : Region)
      → stab_binsearch t.stabs n_fun f lfile rfile addr ≡ some res
      → res.left ≡ pos j
      → with_file t f lfile rfile addr ≡ with_function t f lfile rfile j res.right addr
  unfolding with_file
  with_file-function lfile j rfile res run l = simp (run, l, with_file)

  with_function-line :
      (lfile j n : ℕ) (rfile rfun : ℤ) (res : Region)
      → j < above rfun
      → (t.stabs j).n_value ≤ addr
      → addr < 2 ^ 32
      → (t.stabs j).n_strx < t.stabstr_end - t.stabstr
      → name_length t f (at (t.stabstr + (t.stabs j).n_strx)) ≡ some n
      → stab_binsearch t.stabs n_sline f j rfun (addr - (t.stabs j).n_value) ≡ some res
      → with_function t f lfile rfile j rfun addr
        ≡ some (
            line_region t lfile j rfun res (record (start_info addr) {
              eip_fn_name = at (t.stabstr + (t.stabs j).n_strx);
              eip_fn_addr = (t.stabs j).n_value;
              eip_fn_namelen = n;
            }))
  unfolding with_function function_part name_at
  with_function-line lfile j n rfile rfun res on le room named len run =
      let here : ltb j (above rfun) ≡ true = ground arith in
      let inside : ltb (t.stabs j).n_strx (t.stabstr_end - t.stabstr) ≡ true = ground arith in
      let rel : (addr + 2 ^ 32 - (t.stabs j).n_value) % 2 ^ 32 ≡ addr - (t.stabs j).n_value =
        omega arith in
      simp (here, inside, rel, len, run, with_function, function_part, name_at)

  name_length-eq :
      (p : ℕ) (cs : List ℕ)
      → CString t.mem p cs
      → length cs < f
      → name_length t f (at p) ≡ some (index_of b':' cs)
  unfolding name_length
  name_length-eq p cs h fuel =
      let less : p + index_of b':' cs - p ≡ index_of b':' cs = omega arith in
      simp ((strchr-strfind f t.mem p b':' cs h fuel).0, less, name_length)

  -- the answer of the last part
  line_region-Answers :
      (i j stop l : ℕ) (cs : List ℕ) (rfun : ℤ) (res : Region) (info : Info)
      → res.left ≡ pos l
      → l < above res.right
      → names_file t.stabs i ≡ true
      → i ≤ l
      → LineAt t (addr - (t.stabs j).n_value) j stop l (pos_part res.right)
      → info.eip_fn_addr ≡ (t.stabs j).n_value
      → info.eip_fn_name ≡ at (t.stabstr + (t.stabs j).n_strx)
      → info.eip_fn_namelen ≡ index_of b':' cs
      → info.eip_file ≡ unknown
      → (info' : Info) × (line_region t i j rfun res info ≡ returns (pos 0) info')
        × Answers t addr i j stop cs l (pos_part res.right) info'
  unfolding line_region line_part name_at
  line_region-Answers i j stop l cs rfun res info e on named il line fn_addr fn_name len file =
      let inside : ltb l (above res.right) ≡ true = ground arith in
      let (x, found, lo, hi, x_named, after) = file_stab-last t.stabs i l named il in
      (
        record info {
          eip_line = (t.stabs (pos_part res.right)).n_desc;
          eip_file = name_at t x info.eip_file;
          eip_fn_narg = info.eip_fn_narg + count_args t.stabs (pos_part rfun - (j + 1)) (j + 1);
        },
        simp (e, inside, found, line_region, line_part),
        record {
          line = line;
          eip_line = refl;
          fn_addr = fn_addr;
          fn_name = fn_name;
          fn_namelen = len;
          file = (x, lo, hi, x_named, after, simp (file, name_at));
        },
      )

  -- Take a kernel address below 2^32 - 1 whose file and function stabs are `i + 1` and `j`, in a table
  -- whose files, functions and, in this function, lines are in order. Let no stab of a file or a
  -- function have the value one above the address, and no line of the function the value one above
  -- the address less that of the function; let stab `i + 1` have a value other than 0, the table of
  -- strings end in a NUL, the name of the function be in it, and a line of the function be at or
  -- below the address. Then, with fuel for the table and the name, debuginfo_eip ends and returns 0.
  -- The function is that of stab `j`, its name ends before the colon, the name of the file is that
  -- of the last stab that names one, and the line number is that of the stab `r` before the next
  -- line stab above the address or at the end of the function.
  pub debuginfo_eip-finds :
      (i j stop k : ℕ) (cs : List ℕ)
      → ulim ≤ addr
      → addr + 1 < 2 ^ 32
      → t.stabstr < t.stabstr_end
      → t.mem (t.stabstr_end - 1) ≡ 0
      → Place t.stabs t.count addr (suc i) j stop
      → IsOrdered t addr j stop
      → (t.stabs (suc i)).n_value ≢ 0
      → (t.stabs j).n_strx < t.stabstr_end - t.stabstr
      → CString t.mem (t.stabstr + (t.stabs j).n_strx) cs
      → length cs < f
      → t.count + 1 < f
      → j ≤ k
      → k < stop
      → AtOrBelow t.stabs n_sline (addr - (t.stabs j).n_value) k
      → (l : ℕ) × (r : ℕ) × (info : Info) × (debuginfo_eip t f addr ≡ some (returns (pos 0) info))
        × Answers t addr (suc i) j stop cs l r info
  debuginfo_eip-finds i j stop k cs kernel room size nul place o value strx name name_fuel fuel jk
        ks b =
      let (file, file_run, file_left, behind, within, so_stop) =
        find_file t.stabs t.count addr (suc i) j stop place room f fuel o.files o.file_gap in
      let (fn, fn_run, fn_left, fn_end) =
        find_function t.stabs t.count addr (suc i) j stop place room f fuel file.right behind within
          so_stop o.functions o.function_gap in
      let (line, line_run, (l, line_left, jl, lr, lb, last, clear, ends, u)) =
        find_line t.stabs t.count addr (suc i) j stop place room f fuel fn.right fn_end
          (addr - (t.stabs j).n_value) k (omega arith) o.lines o.line_gap jk ks b in
      let r : ℕ = pos_part line.right in
      let at_r : above line.right ≡ suc r = above-pos line.right (omega arith) in
      let named : names_file t.stabs (suc i) ≡ true = ground (arith, place.file) in
      let at_line : LineAt t (addr - (t.stabs j).n_value) j stop l r = (
        jl,
        omega (arith, at_r),
        omega (arith, at_r, u, fn_end),
        lb,
        λ x lo hi. last x lo (omega (arith, fn_end)),
        λ x lo hi. clear x lo (omega (arith, at_r)),
      ) in
      let (info, region_run, answers) =
        line_region-Answers (suc i) j stop l cs fn.right line
          (record (start_info addr) {
            eip_fn_name = at (t.stabstr + (t.stabs j).n_strx);
            eip_fn_addr = (t.stabs j).n_value;
            eip_fn_namelen = index_of b':' cs;
          })
          line_left lr named (omega (arith, place.order)) at_line refl refl refl
          (unfold start_info in refl) in
      (
        l,
        r,
        info,
        debuginfo_eip-file i file kernel size nul file_run file_left
            ∙ with_file-function (suc i) j file.right fn fn_run fn_left
            ∙ with_function-line (suc i) j (index_of b':' cs) file.right fn.right line
                (omega (arith, fn_end, place.order)) (omega (arith, place.function)) (omega arith)
                strx (name_length-eq (t.stabstr + (t.stabs j).n_strx) cs name name_fuel) line_run
            ∙ ap some region_run,
        answers,
      )

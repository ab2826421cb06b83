-- ===== src/Console/Output/Bounds.antt =====
-- The cursor stays on the screen, and output writes no cell outside it.
use vukernelprogramming.Prelude.{
  ℕ, zero, suc, ◌+◌, ◌-◌, ◌%◌, ◌^◌, ◌≤◌, ◌<◌, ◌≡◌, refl, ltb, leb, ◌==◌, if◌then◌else◌, arith,
  Bool-cases, inl, inr, ◌∙◌,
}
use Prim.Native.Nat.{bit_or}
use vukernelprogramming.Memory.{write}
use vukernelprogramming.Ports.{Ports}
use vukernelprogramming.Console.Output.{
  Screen, crt_cols, crt_size, put_cell, scroll, clear_cells, attribute, after_switch, spaces,
  cons_putc_plain, cga_putc, cons_putc, lpt_putc, serial_putc,
}

-- `s'` differs from `s` only in cells on the screen, and its cursor is below `n`
abbrev pub Within : ℕ → Screen → Screen → Type 0
Within n s s' =
    (s'.crt_pos < n)
    × ((i : ℕ) → crt_size ≤ i → s'.crt_buf i ≡ s.crt_buf i)
    × (s'.addr_6845 ≡ s.addr_6845)

put_cell-Within :
    (c : ℕ) (s : Screen) → s.crt_pos < crt_size → Within (crt_size + crt_cols) s (put_cell c s)
unfolding put_cell
put_cell-Within c s h = (ground arith, λ i lo. ground arith, ground arith)

clear_cells-eq :
    (n i : ℕ) (buf : ℕ → ℕ) (a : ℕ)
    → clear_cells n i buf a
      ≡ (if leb i a then (if ltb a (i + n) then bit_or 0x0700 b' ' else buf a) else buf a)
unfolding clear_cells write
clear_cells-eq zero i buf a = ground arith
clear_cells-eq (suc n) i buf a =
    ground (arith, clear_cells-eq n (i + 1) (write buf i (bit_or 0x0700 b' ')) a)

scroll-Within : (s : Screen) → s.crt_pos < crt_size + crt_cols → Within crt_size s (scroll s)
unfolding scroll
scroll-Within s h = elim (Bool-cases (leb crt_size s.crt_pos)) [
  | inl over ↦
      rw over (
        ground arith,
        λ i lo. clear_cells-eq crt_cols (crt_size - crt_cols) _ i ∙ ground arith,
        refl,
      )
  | inr on ↦ rw on (ground arith, λ i lo. refl, refl)
]

Within-trans : {n m : ℕ} (s s' s'' : Screen) → Within n s s' → Within m s' s'' → Within m s s''
Within-trans s s' s'' h k = (k.0, λ i lo. k.1 i lo ∙ h.1 i lo, k.2 ∙ h.2)

module _ (ports : Ports) where
  open ports use {Device}

  abbrev Safe : Screen → Screen × Device → Type 0
  Safe s x = Within crt_size s x.0

  after_switch-Safe :
      (s s' : Screen) (d : Device)
      → Within (crt_size + crt_cols) s s'
      → Safe s (after_switch ports (s', d))
  unfolding after_switch
  after_switch-Safe s s' d h = Within-trans s s' (scroll s') h (scroll-Within s' h.0)

  plain-Safe :
      (c : ℕ) (s : Screen) (d : Device)
      → s.crt_pos < crt_size
      → Safe s (after_switch ports (put_cell (attribute c) s, d))
  plain-Safe c s d h =
      after_switch-Safe s (put_cell (attribute c) s) d (put_cell-Within (attribute c) s h)

  spaces-Safe : (n : ℕ) (s : Screen) (x : Screen × Device) → Safe s x → Safe s (spaces ports n x)
  unfolding spaces cons_putc_plain
  spaces-Safe zero s x h = h
  spaces-Safe (suc n) s (s', d) h =
      spaces-Safe n s (cons_putc_plain ports b' ' (s', d))
        (Within-trans s s' _ h (plain-Safe b' ' s' _ h.0))

  wider : (s s' : Screen) → Within crt_size s s' → Within (crt_size + crt_cols) s s'
  wider s s' h = (omega (arith, h.0), h.1, h.2)

  -- With the cursor on the screen, the output of any character, tabs, line ends and backspaces
  -- included, leaves the cursor on the screen and changes no cell of memory outside it.
  pub cons_putc-Safe :
      (c : ℕ) (s : Screen) (d : Device)
      → s.crt_pos < crt_size
      → Within crt_size s (cons_putc ports c (s, d)).0
  unfolding cons_putc cga_putc
  cons_putc-Safe c s d h =
      let out = lpt_putc ports c (serial_putc ports c d) in
      elim (Bool-cases (attribute c % 2 ^ 8 == 9)) [
        | inl tab ↦
            rw tab (
              after_switch-Safe s _ _
                (wider s _ (spaces-Safe 5 s (s, out) (h, λ i lo. refl, refl))))
        | inr other ↦ rw other (plain-Safe c s out h)
      ]

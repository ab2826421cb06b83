-- ===== src/Tests/Lines.antt =====
-- monitor of kern/monitor.c with the kernel's table, over a console with a list of keys.
use vukernelprogramming.Prelude.{ℕ, List, [], ◌∷◌}

-- an unknown command, and help with an argument and a correction
abbrev two_lines : List (List ℕ × ℕ)
two_lines = (b'x' ∷ [], 13) ∷ (b'h' ∷ b'e' ∷ b'l' ∷ b'q' ∷ 8 ∷ b'p' ∷ b' ' ∷ b'2' ∷ [], 10) ∷ []

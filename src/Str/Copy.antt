-- ===== src/Str/Copy.antt =====
-- The copying routines of lib/string.c: strcpy, strcat, strncpy and strlcpy.
-- A loop over a string takes fuel, and `none` says that the fuel ran out.
pub mod Bounded
pub mod Whole
use vukernelprogramming.Prelude.{ℕ, zero, suc, ◌+◌, ◌-◌, Option, none, some, ◌==◌, if◌then◌else◌}
use vukernelprogramming.Memory.{Mem, write}
use vukernelprogramming.Str.Scan.{strlen}

-- while ((*dst++ = *src++) != '\0');
strcpy_loop : ℕ → Mem → ℕ → ℕ → Option Mem
strcpy_loop zero m dst src = none
strcpy_loop (suc f) m dst src =
    let m' = write m dst (m src) in
    let rest = strcpy_loop f m' (dst + 1) (src + 1) in if m src == 0 then some m' else rest

unfoldable pub strcpy : ℕ → Mem → ℕ → ℕ → Option Mem
unfolding strcpy_loop write
strcpy f m dst src = strcpy_loop f m dst src

unfoldable pub strcat : ℕ → Mem → ℕ → ℕ → Option Mem
strcat f m dst src = elim (strlen f m dst) [ none ↦ none | some len ↦ strcpy f m (dst + len) src ]

-- `left` is `size - i`; the test reads *src after the store
strncpy_loop : ℕ → Mem → ℕ → ℕ → Mem
strncpy_loop zero m dst src = m
strncpy_loop (suc left) m dst src =
    let m' = write m dst (m src) in
    strncpy_loop left m' (dst + 1) (if m' src == 0 then src else src + 1)

unfoldable pub strncpy : Mem → ℕ → ℕ → ℕ → Mem
unfolding strncpy_loop write
strncpy m dst src size = strncpy_loop size m dst src

-- while (--size > 0 && *src != '\0') *dst++ = *src++; *dst = '\0';
-- `left` is `size` after the decrement; the result has the last value of `dst`
strlcpy_loop : ℕ → Mem → ℕ → ℕ → Mem × ℕ
strlcpy_loop zero m dst src = (write m dst 0, dst)
strlcpy_loop (suc left) m dst src =
    let rest = strlcpy_loop left (write m dst (m src)) (dst + 1) (src + 1) in
    if m src == 0 then (write m dst 0, dst) else rest

strlcpy_sized : Mem → ℕ → ℕ → ℕ → Mem × ℕ
strlcpy_sized m dst src zero = (m, dst)
strlcpy_sized m dst src (suc size) = strlcpy_loop size m dst src

unfoldable pub strlcpy : Mem → ℕ → ℕ → ℕ → Mem × ℕ
unfolding strlcpy_loop strlcpy_sized write
strlcpy m dst src size = let (m', d) = strlcpy_sized m dst src size in (m', d - dst)

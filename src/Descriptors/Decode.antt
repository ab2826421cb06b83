-- ===== src/Descriptors/Decode.antt =====
-- What the processor reads from the descriptors that inc/mmu.h builds.
use vukernelprogramming.Prelude.{
  ℕ, ◌+◌, ◌*◌, ◌/◌, ◌^◌, ◌<◌, ◌≡◌, ◌≢◌, refl, Bool, true, false, ◌==◌, if◌then◌else◌, arith,
}
use vukernelprogramming.Descriptors.{
  Segdesc, segdesc, seg, seg16, GateDesc, set_gate, set_call_gate,
}

abbrev pub base_of : Segdesc → ℕ
base_of d = d.sd_base_15_0 + d.sd_base_23_16 * 2 ^ 16 + d.sd_base_31_24 * 2 ^ 24

-- the highest offset in the segment: with granularity, the limit counts pages of 4096 bytes
abbrev pub limit_of : Segdesc → ℕ
limit_of d =
    let raw = d.sd_lim_15_0 + d.sd_lim_19_16 * 2 ^ 16 in
    if d.sd_g == 1 then raw * 2 ^ 12 + 4095 else raw

abbrev pub offset_of : GateDesc → ℕ
offset_of g = g.gd_off_15_0 + g.gd_off_31_16 * 2 ^ 16

-- The processor reads from the descriptor that SEG builds the base that was given, and as its limit
-- the last byte of the 4096 bytes that the given limit lies in. From the descriptor of SEG16 it
-- reads the base, and a limit below 2^20 as it was given.
pub seg-decode :
    (type base lim dpl : ℕ)
    → base < 2 ^ 32
    → lim < 2 ^ 32
    → (base_of (seg type base lim dpl) ≡ base)
      × (limit_of (seg type base lim dpl) ≡ lim / 2 ^ 12 * 2 ^ 12 + 4095)
      × (base_of (seg16 type base lim dpl) ≡ base)
      × (lim < 2 ^ 20 → limit_of (seg16 type base lim dpl) ≡ lim)
unfolding seg seg16 segdesc
seg-decode type base lim dpl b l = (omega arith, omega arith, omega arith, λ small. omega arith)

-- A gate set by SETGATE or SETCALLGATE holds the 32-bit offset that was given, and does not depend
-- on what it held before: every field is written. The types of the three kinds of gate differ.
pub set_gate-decode :
    (istrap : Bool) (sel off dpl : ℕ) (gate other : GateDesc)
    → off < 2 ^ 32
    → (offset_of (set_gate istrap sel off dpl gate) ≡ off)
      × (offset_of (set_call_gate sel off dpl gate) ≡ off)
      × (set_gate istrap sel off dpl gate ≡ set_gate istrap sel off dpl other)
      × (set_call_gate sel off dpl gate ≡ set_call_gate sel off dpl other)
      × ((set_gate true sel off dpl gate).gd_type ≢ (set_gate false sel off dpl gate).gd_type)
      × ((set_gate istrap sel off dpl gate).gd_type ≢ (set_call_gate sel off dpl gate).gd_type)
unfolding set_gate set_call_gate
set_gate-decode istrap sel off dpl gate other o =
    (omega arith, omega arith, refl, refl, λ e. absurd (ground arith), λ e. absurd (ground arith))

-- ===== src/Descriptors.antt =====
-- The segment and gate descriptors of inc/mmu.h. A value that is stored in a bit-field is cut to the
-- field's width.
pub mod Decode
pub mod Bytes
use Prim.Native.Nat.{bit_or}
use vukernelprogramming.Prelude.{
  ℕ, ◌+◌, ◌-◌, ◌*◌, ◌/◌, ◌%◌, ◌^◌, Bool, List, [], ◌∷◌, if◌then◌else◌,
}

pub record Segdesc : Type 0 where
  pub sd_lim_15_0 : ℕ
  pub sd_base_15_0 : ℕ
  pub sd_base_23_16 : ℕ
  pub sd_type : ℕ
  pub sd_s : ℕ
  pub sd_dpl : ℕ
  pub sd_p : ℕ
  pub sd_lim_19_16 : ℕ
  pub sd_avl : ℕ
  pub sd_rsv1 : ℕ
  pub sd_db : ℕ
  pub sd_g : ℕ
  pub sd_base_31_24 : ℕ

-- (struct Segdesc){ ... }
unfoldable pub segdesc : ℕ → ℕ → ℕ → ℕ → ℕ → ℕ → ℕ → ℕ → ℕ → ℕ → ℕ → ℕ → ℕ → Segdesc
segdesc lim_15_0 base_15_0 base_23_16 type s dpl p lim_19_16 avl rsv1 db g base_31_24 = record {
  sd_lim_15_0 = lim_15_0 % 2 ^ 16;
  sd_base_15_0 = base_15_0 % 2 ^ 16;
  sd_base_23_16 = base_23_16 % 2 ^ 8;
  sd_type = type % 2 ^ 4;
  sd_s = s % 2;
  sd_dpl = dpl % 2 ^ 2;
  sd_p = p % 2;
  sd_lim_19_16 = lim_19_16 % 2 ^ 4;
  sd_avl = avl % 2;
  sd_rsv1 = rsv1 % 2;
  sd_db = db % 2;
  sd_g = g % 2;
  sd_base_31_24 = base_31_24 % 2 ^ 8;
}

unfoldable pub seg_null : Segdesc
unfolding segdesc
seg_null = segdesc 0 0 0 0 0 0 0 0 0 0 0 0 0

unfoldable pub seg_fault : Segdesc
unfolding segdesc
seg_fault = segdesc 0 0 0 0 1 0 1 0 0 0 1 0 0

-- SEG and SEG16 of C
unfoldable pub seg : ℕ → ℕ → ℕ → ℕ → Segdesc
unfolding segdesc
seg type base lim dpl =
    segdesc (lim / 2 ^ 12 % 2 ^ 16) (base % 2 ^ 16) (base / 2 ^ 16 % 2 ^ 8) type 1 dpl 1
      (lim / 2 ^ 28) 0 0 1 1 (base / 2 ^ 24)

unfoldable pub seg16 : ℕ → ℕ → ℕ → ℕ → Segdesc
unfolding segdesc
seg16 type base lim dpl =
    segdesc (lim % 2 ^ 16) (base % 2 ^ 16) (base / 2 ^ 16 % 2 ^ 8) type 1 dpl 1 (lim / 2 ^ 16) 0 0 1
      0 (base / 2 ^ 24)

-- .word and .byte
abbrev two_bytes : ℕ → List ℕ → List ℕ
two_bytes w rest = (w % 2 ^ 8) ∷ (w / 2 ^ 8 % 2 ^ 8) ∷ rest

-- SEG_NULL and SEG of the assembler, as bytes
unfoldable pub asm_seg_null : List ℕ
asm_seg_null = two_bytes 0 (two_bytes 0 (0 ∷ 0 ∷ 0 ∷ 0 ∷ []))

unfoldable pub asm_seg : ℕ → ℕ → ℕ → List ℕ
asm_seg type base lim = two_bytes (lim / 2 ^ 12 % 2 ^ 16) (
    two_bytes (base % 2 ^ 16) (
      (base / 2 ^ 16 % 2 ^ 8)
      ∷ bit_or 0x90 type
      ∷ bit_or 0xC0 (lim / 2 ^ 28 % 2 ^ 4)
      ∷ (base / 2 ^ 24 % 2 ^ 8)
      ∷ []))

pub record GateDesc : Type 0 where
  pub gd_off_15_0 : ℕ
  pub gd_sel : ℕ
  pub gd_args : ℕ
  pub gd_rsv1 : ℕ
  pub gd_type : ℕ
  pub gd_s : ℕ
  pub gd_dpl : ℕ
  pub gd_p : ℕ
  pub gd_off_31_16 : ℕ

abbrev pub sts_cg32 : ℕ
sts_cg32 = 0xC

abbrev pub sts_ig32 : ℕ
sts_ig32 = 0xE

abbrev pub sts_tg32 : ℕ
sts_tg32 = 0xF

-- SETGATE and SETCALLGATE
unfoldable pub set_gate : Bool → ℕ → ℕ → ℕ → GateDesc → GateDesc
set_gate istrap sel off dpl gate = record gate {
  gd_off_15_0 = off % 2 ^ 16;
  gd_sel = sel % 2 ^ 16;
  gd_args = 0;
  gd_rsv1 = 0;
  gd_type = if istrap then sts_tg32 else sts_ig32;
  gd_s = 0;
  gd_dpl = dpl % 2 ^ 2;
  gd_p = 1;
  gd_off_31_16 = off / 2 ^ 16 % 2 ^ 16;
}

unfoldable pub set_call_gate : ℕ → ℕ → ℕ → GateDesc → GateDesc
set_call_gate sel off dpl gate = record gate {
  gd_off_15_0 = off % 2 ^ 16;
  gd_sel = sel % 2 ^ 16;
  gd_args = 0;
  gd_rsv1 = 0;
  gd_type = sts_cg32;
  gd_s = 0;
  gd_dpl = dpl % 2 ^ 2;
  gd_p = 1;
  gd_off_31_16 = off / 2 ^ 16 % 2 ^ 16;
}

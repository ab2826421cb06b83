-- ===== src/Descriptors/Bytes.antt =====
-- The bytes of a segment descriptor in memory, and those that the assembler's macros of inc/mmu.h give.
use Prim.Native.Nat.{bit_or}
use vukernelprogramming.Prelude.{
  ℕ, zero, suc, ◌+◌, ◌*◌, ◌/◌, ◌%◌, ◌^◌, ◌<◌, ◌≡◌, refl, Bool, ◌==◌, arith, List, [], ◌∷◌,
}
use vukernelprogramming.Prelude.{passes, passes-at}
use vukernelprogramming.Descriptors.{Segdesc, segdesc, seg_null, seg, asm_seg_null, asm_seg}

-- bit-fields, each with its width, from the lowest bit on
abbrev pub pack : List (ℕ × ℕ) → ℕ
pack [] = 0
pack ((width, value) ∷ fields) = value + 2 ^ width * pack fields

abbrev pub packed : Segdesc → ℕ
packed d = pack (
    (16, d.sd_lim_15_0)
    ∷ (16, d.sd_base_15_0)
    ∷ (8, d.sd_base_23_16)
    ∷ (4, d.sd_type)
    ∷ (1, d.sd_s)
    ∷ (2, d.sd_dpl)
    ∷ (1, d.sd_p)
    ∷ (4, d.sd_lim_19_16)
    ∷ (1, d.sd_avl)
    ∷ (1, d.sd_rsv1)
    ∷ (1, d.sd_db)
    ∷ (1, d.sd_g)
    ∷ (8, d.sd_base_31_24)
    ∷ [])

-- the lowest `n` bytes of a number, the lowest first
abbrev pub bytes : ℕ → ℕ → List ℕ
bytes zero v = []
bytes (suc n) v = (v % 2 ^ 8) ∷ bytes n (v / 2 ^ 8)

abbrev or_is_sum : ℕ → ℕ → Bool
or_is_sum high v = bit_or high v == high + v

bit_or-access : (type : ℕ) → type < 16 → bit_or 0x90 type ≡ 0x90 + type
unfolding passes
bit_or-access type h = ground (arith, passes-at (or_is_sum 0x90) 16 type h refl)

bit_or-flags : (v : ℕ) → v < 16 → bit_or 0xC0 v ≡ 0xC0 + v
unfolding passes
bit_or-flags v h = ground (arith, passes-at (or_is_sum 0xC0) 16 v h refl)

cons_eq : {a b : ℕ} {cs bs : List ℕ} → a ≡ b → cs ≡ bs → (a ∷ cs) ≡ (b ∷ bs)
cons_eq e es = rw (e, es) refl

-- The eight bytes of the descriptor that SEG of C builds for privilege level 0 are those of SEG of
-- the assembler, for a type of four bits and a base and a limit of 32 bits; and the two null
-- segments have the same bytes.
pub seg-asm_seg :
    (type base lim : ℕ)
    → type < 16
    → base < 2 ^ 32
    → lim < 2 ^ 32
    → (bytes 8 (packed (seg type base lim 0)) ≡ asm_seg type base lim)
      × (bytes 8 (packed seg_null) ≡ asm_seg_null)
unfolding seg segdesc seg_null asm_seg asm_seg_null
seg-asm_seg type base lim t b l =
    let access = bit_or-access type t in
    let flags = bit_or-flags (lim / 2 ^ 28 % 2 ^ 4) (omega arith) in
    (
      cons_eq (omega arith) (
          cons_eq (omega arith) (
            cons_eq (omega arith) (
              cons_eq (omega arith) (
                cons_eq (omega arith) (
                  cons_eq (omega (arith, access))
                    (cons_eq (omega (arith, flags)) (cons_eq (omega arith) refl))))))),
      refl,
    )

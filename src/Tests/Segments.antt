-- ===== src/Tests/Segments.antt =====
-- inc/mmu.h on the code segment of the kernel and a gate.
use vukernelprogramming.Prelude.{◌+◌, ◌*◌, ◌/◌, ◌^◌, ◌<◌, ◌≡◌, refl, arith, [], ◌∷◌}
use vukernelprogramming.Descriptors.{seg, seg16, seg_null, seg_fault, asm_seg, asm_seg_null}
use vukernelprogramming.Descriptors.Decode.{base_of, limit_of, seg-decode}
use vukernelprogramming.Descriptors.Bytes.{bytes, packed, seg-asm_seg}

-- SEG(STA_X|STA_R, 0x0, 0xffffffff), whose limit is the whole of the 32 bits
code_bytes : asm_seg 0xA 0 0xFFFFFFFF ≡ 0xFF ∷ 0xFF ∷ 0 ∷ 0 ∷ 0 ∷ 0x9A ∷ 0xCF ∷ 0 ∷ []
unfolding asm_seg
code_bytes = refl

-- the limit of the segment that faults is its first byte
fault_limit : limit_of seg_fault ≡ 0
unfolding seg_fault
fault_limit = refl

seg-decode_example :
    (base_of (seg 0x2 0x12345678 0x9FFFF 0) ≡ 0x12345678)
    × (limit_of (seg 0x2 0x12345678 0x9FFFF 0) ≡ 0x9FFFF / 2 ^ 12 * 2 ^ 12 + 4095)
    × (base_of (seg16 0x2 0x12345678 0x9FFFF 0) ≡ 0x12345678)
    × (0x9FFFF < 2 ^ 20 → limit_of (seg16 0x2 0x12345678 0x9FFFF 0) ≡ 0x9FFFF)
seg-decode_example = seg-decode 0x2 0x12345678 0x9FFFF 0 (omega arith) (omega arith)

seg-asm_seg_example :
    (bytes 8 (packed (seg 0xA 0x12345678 0xFFFFFFFF 0)) ≡ asm_seg 0xA 0x12345678 0xFFFFFFFF)
    × (bytes 8 (packed seg_null) ≡ asm_seg_null)
seg-asm_seg_example =
    seg-asm_seg 0xA 0x12345678 0xFFFFFFFF (omega arith) (omega arith) (omega arith)

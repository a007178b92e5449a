-- ===== src/Rv32fc/Claims.antt =====
-- riscv_rv32fc.hpp against riscv_rv32c.hpp: which decoder takes which encoding.
use rv32_complete_v.Prelude.{ℕ, ◌≡◌, Bool, true, false, arith}
use rv32_complete_v.Rv32c.Types as Base
use rv32_complete_v.Rv32c.Decode as BaseDecode
use rv32_complete_v.Rv32fc.{
  InstrType, decode, is_compressed_float, undecoded, decode_quadrant0, decode_quadrant2,
}

abbrev pub is_legal : InstrType → Bool
is_legal InstrType.illegal = false
is_legal _ = true

-- The decoder of the floating-point subset accepts exactly what `is_compressed_float` claims, and the decoder
-- of the base subset takes each such encoding for illegal.
pub is_compressed_float-decode :
    (instr : ℕ)
    → (is_legal (decode instr).type ≡ is_compressed_float instr)
      × (is_compressed_float instr ≡ true → (BaseDecode.decode instr).type ≡ Base.InstrType.illegal)
unfolding decode is_compressed_float decode_quadrant0 decode_quadrant2 undecoded BaseDecode.decode
    BaseDecode.decode_quadrant BaseDecode.decode_c0 BaseDecode.decode_c2 BaseDecode.undecoded
is_compressed_float-decode instr = (ground arith, λ h. ground arith)

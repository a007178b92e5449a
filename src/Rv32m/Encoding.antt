-- ===== src/Rv32m/Encoding.antt =====
-- The encoders of riscv_rv32m.hpp against its decoder.
use rv32_complete_v.Common.Encode.{Fields, r_type, r_type-Fields}
use rv32_complete_v.Rv32m.{InstrType, decode, encode, is_m_instruction, m_instr, type_of_funct3}
use rv32_complete_v.Prelude.{ℕ, ◌%◌, ◌<◌, ◌≡◌, refl, true, some, arith}

m_instr-r_type :
    (f3 rd rs1 rs2 : ℕ) → m_instr f3 rd rs1 rs2 ≡ r_type 0b0000001 rs2 rs1 f3 rd 0b0110011
unfolding m_instr r_type
m_instr-r_type f3 rd rs1 rs2 = refl

abbrev HasOperands : InstrType → ℕ → ℕ → ℕ → ℕ → Type 0
HasOperands t rd rs1 rs2 w =
    ((decode w).type ≡ t)
    × ((decode w).rd ≡ rd % 32)
    × ((decode w).rs1 ≡ rs1 % 32)
    × ((decode w).rs2 ≡ rs2 % 32)
    × (is_m_instruction w ≡ true)

decode-Fields :
    (w rd f3 rs1 rs2 : ℕ)
    → Fields w 0b0110011 (rd % 32) f3 (rs1 % 32) (rs2 % 32) 0b0000001
    → HasOperands (type_of_funct3 f3) rd rs1 rs2 w
unfolding decode is_m_instruction
decode-Fields w rd f3 rs1 rs2 h = ground arith

decode-m_instr :
    (f3 rd rs1 rs2 : ℕ)
    → f3 < 8
    → HasOperands (type_of_funct3 f3) rd rs1 rs2 (m_instr f3 rd rs1 rs2)
decode-m_instr f3 rd rs1 rs2 h = decode-Fields (m_instr f3 rd rs1 rs2) rd f3 rs1 rs2 (
    rw (m_instr-r_type f3 rd rs1 rs2)
      (r_type-Fields 0b0000001 rs2 rs1 f3 rd 0b0110011 (omega arith) h (omega arith)))

-- Each encoded instruction is claimed by `is_m_instruction` and decodes to its type, with the low
-- five bits of the operands.
decode-encode :
    (t : InstrType) (rd rs1 rs2 : ℕ) {w : ℕ}
    → encode t rd rs1 rs2 ≡ some w
    → ((decode w).type ≡ t)
      × ((decode w).rd ≡ rd % 32)
      × ((decode w).rs1 ≡ rs1 % 32)
      × ((decode w).rs2 ≡ rs2 % 32)
      × (is_m_instruction w ≡ true)
unfolding encode type_of_funct3
decode-encode InstrType.mul rd rs1 rs2 h = ground (arith, decode-m_instr 0 rd rs1 rs2)
decode-encode InstrType.mulh rd rs1 rs2 h = ground (arith, decode-m_instr 1 rd rs1 rs2)
decode-encode InstrType.mulhsu rd rs1 rs2 h = ground (arith, decode-m_instr 2 rd rs1 rs2)
decode-encode InstrType.mulhu rd rs1 rs2 h = ground (arith, decode-m_instr 3 rd rs1 rs2)
decode-encode InstrType.div rd rs1 rs2 h = ground (arith, decode-m_instr 4 rd rs1 rs2)
decode-encode InstrType.divu rd rs1 rs2 h = ground (arith, decode-m_instr 5 rd rs1 rs2)
decode-encode InstrType.rem rd rs1 rs2 h = ground (arith, decode-m_instr 6 rd rs1 rs2)
decode-encode InstrType.remu rd rs1 rs2 h = ground (arith, decode-m_instr 7 rd rs1 rs2)
decode-encode InstrType.illegal rd rs1 rs2 h = cc

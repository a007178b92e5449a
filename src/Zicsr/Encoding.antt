-- ===== src/Zicsr/Encoding.antt =====
-- riscv_zicsr.hpp: the encoders against the decoder.
use rv32_complete_v.Common.Encode.{Fields, sum-Fields}
use rv32_complete_v.Zicsr.Execute.{
  CsrInstrType, decode, type_of_funct3, is_csr_instruction, csr_instr, encode,
}
use rv32_complete_v.Prelude.{
  ℕ, ◌+◌, ◌*◌, ◌/◌, ◌%◌, ◌^◌, ◌<◌, ◌≡◌, refl, ◌∙◌, true, some, arith, bit_or, bit_or_add,
  bit_and_mask, shl32, leb, ◌!=◌, ◌&&◌,
}

-- Five fields, from the highest down.
join_fields :
    (c s f r o : ℕ)
    → c % 2 ^ 20 ≡ 0
    → s < 2 ^ 20
    → s % 2 ^ 15 ≡ 0
    → f < 2 ^ 15
    → f % 2 ^ 12 ≡ 0
    → r < 2 ^ 12
    → r % 2 ^ 7 ≡ 0
    → o < 2 ^ 7
    → bit_or (bit_or (bit_or (bit_or c s) f) r) o ≡ c + s + f + r + o
join_fields c s f r o hc hs hs' hf hf' hr hr' ho =
    rw
      (
        bit_or_add 20 c s hc hs,
        bit_or_add 15 (c + s) f (omega arith) hf,
        bit_or_add 12 (c + s + f) r (omega arith) hr,
        bit_or_add 7 (c + s + f + r) o (omega arith) ho,
      )
      refl

csr_instr-sum :
    (f rd csr rs1 : ℕ)
    → f < 8
    → csr_instr f rd csr rs1
      ≡ csr % 2 ^ 12 / 32 * 2 ^ 25
        + csr % 2 ^ 12 % 32 * 2 ^ 20
        + rs1 % 32 * 2 ^ 15
        + f * 2 ^ 12
        + rd % 32 * 2 ^ 7
        + 0b1110011
unfolding csr_instr
csr_instr-sum f rd csr rs1 h =
    rw (bit_and_mask 12 csr, bit_and_mask 5 rs1, bit_and_mask 5 rd)
      (join_fields (shl32 (csr % 2 ^ 12) 20) (shl32 (rs1 % 32) 15) (shl32 f 12) (shl32 (rd % 32) 7)
          0b1110011 (omega arith) (omega arith) (omega arith) (omega arith) (omega arith)
          (omega arith) (omega arith) (omega arith)
        ∙ omega arith)

csr_instr-Fields :
    (f rd csr rs1 : ℕ)
    → f < 8
    → Fields
        (csr_instr f rd csr rs1)
        0b1110011
        (rd % 32)
        f
        (rs1 % 32)
        (csr % 2 ^ 12 % 32)
        (csr % 2 ^ 12 / 32)
csr_instr-Fields f rd csr rs1 h = rw (csr_instr-sum f rd csr rs1 h) (
    sum-Fields 0b1110011 (rd % 32) f (rs1 % 32) (csr % 2 ^ 12 % 32) (csr % 2 ^ 12 / 32)
      (omega arith) (omega arith) h (omega arith) (omega arith) (omega arith))

abbrev HasOperands : CsrInstrType → ℕ → ℕ → ℕ → ℕ → Type 0
HasOperands t rd csr rs1 w =
    ((decode w).type ≡ t)
    × ((decode w).rd ≡ rd % 32)
    × ((decode w).csr ≡ csr % 2 ^ 12)
    × ((decode w).rs1 ≡ rs1 % 32)
    × (is_csr_instruction w ≡ true)

decode-Fields :
    (w rd f csr rs1 : ℕ)
    → (leb 1 f && f != 4) ≡ true
    → Fields w 0b1110011 (rd % 32) f (rs1 % 32) (csr % 2 ^ 12 % 32) (csr % 2 ^ 12 / 32)
    → HasOperands (type_of_funct3 f) rd csr rs1 w
unfolding decode is_csr_instruction
decode-Fields w rd f csr rs1 e h = ground arith

decode-csr_instr :
    (f rd csr rs1 : ℕ)
    → f < 8
    → (leb 1 f && f != 4) ≡ true
    → HasOperands (type_of_funct3 f) rd csr rs1 (csr_instr f rd csr rs1)
decode-csr_instr f rd csr rs1 h e =
    decode-Fields (csr_instr f rd csr rs1) rd f csr rs1 e (csr_instr-Fields f rd csr rs1 h)

-- Each encoded CSR instruction is claimed by `is_csr_instruction` and decodes to its type, with the low
-- five bits of the destination and of the source and the low twelve of the number of the register.
pub is_csr_instruction-encode :
    (t : CsrInstrType) (rd csr rs1 : ℕ) {w : ℕ}
    → encode t rd csr rs1 ≡ some w
    → ((decode w).type ≡ t)
      × ((decode w).rd ≡ rd % 32)
      × ((decode w).csr ≡ csr % 2 ^ 12)
      × ((decode w).rs1 ≡ rs1 % 32)
      × (is_csr_instruction w ≡ true)
unfolding encode type_of_funct3
is_csr_instruction-encode CsrInstrType.csrrw rd csr rs1 h =
    ground (arith, decode-csr_instr 1 rd csr rs1)
is_csr_instruction-encode CsrInstrType.csrrs rd csr rs1 h =
    ground (arith, decode-csr_instr 2 rd csr rs1)
is_csr_instruction-encode CsrInstrType.csrrc rd csr rs1 h =
    ground (arith, decode-csr_instr 3 rd csr rs1)
is_csr_instruction-encode CsrInstrType.csrrwi rd csr rs1 h =
    ground (arith, decode-csr_instr 5 rd csr rs1)
is_csr_instruction-encode CsrInstrType.csrrsi rd csr rs1 h =
    ground (arith, decode-csr_instr 6 rd csr rs1)
is_csr_instruction-encode CsrInstrType.csrrci rd csr rs1 h =
    ground (arith, decode-csr_instr 7 rd csr rs1)
is_csr_instruction-encode CsrInstrType.illegal rd csr rs1 h = cc

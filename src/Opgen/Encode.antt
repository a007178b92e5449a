-- ===== src/Opgen/Encode.antt =====
-- The encoding helpers of riscv_rv32i_opgen.hpp, which the headers of the other extensions repeat, and the
-- fields of their words.
use rv32_complete_v.Prelude.{ℕ, bit_and, bit_or, shl32, shr32}

unfoldable pub encode_r_type : ℕ → ℕ → ℕ → ℕ → ℕ → ℕ → ℕ
encode_r_type funct7 rs2 rs1 funct3 rd op =
    bit_or
      (bit_or
        (bit_or
          (bit_or (bit_or (shl32 (bit_and funct7 0x7f) 25) (shl32 (bit_and rs2 0x1f) 20))
            (shl32 (bit_and rs1 0x1f) 15))
          (shl32 (bit_and funct3 0x7) 12))
        (shl32 (bit_and rd 0x1f) 7))
      (bit_and op 0x7f)

unfoldable pub encode_i_type : ℕ → ℕ → ℕ → ℕ → ℕ → ℕ
encode_i_type imm rs1 funct3 rd op =
    bit_or
      (bit_or
        (bit_or (bit_or (shl32 (bit_and imm 0xfff) 20) (shl32 (bit_and rs1 0x1f) 15))
          (shl32 (bit_and funct3 0x7) 12))
        (shl32 (bit_and rd 0x1f) 7))
      (bit_and op 0x7f)

unfoldable pub encode_s_type : ℕ → ℕ → ℕ → ℕ → ℕ → ℕ
encode_s_type imm rs2 rs1 funct3 op =
    bit_or
      (bit_or
        (bit_or
          (bit_or (bit_or (shl32 (bit_and imm 0xfe0) 20) (shl32 (bit_and rs2 0x1f) 20))
            (shl32 (bit_and rs1 0x1f) 15))
          (shl32 (bit_and funct3 0x7) 12))
        (shl32 (bit_and imm 0x1f) 7))
      (bit_and op 0x7f)

unfoldable pub encode_b_type : ℕ → ℕ → ℕ → ℕ → ℕ → ℕ
encode_b_type imm rs2 rs1 funct3 op =
    bit_or
      (bit_or
        (bit_or
          (bit_or
            (bit_or
              (bit_or
                (bit_or (shl32 (bit_and (shr32 imm 12) 0x1) 31)
                  (shl32 (bit_and (shr32 imm 5) 0x3f) 25))
                (shl32 (bit_and rs2 0x1f) 20))
              (shl32 (bit_and rs1 0x1f) 15))
            (shl32 (bit_and funct3 0x7) 12))
          (shl32 (bit_and (shr32 imm 1) 0xf) 8))
        (shl32 (bit_and (shr32 imm 11) 0x1) 7))
      (bit_and op 0x7f)

unfoldable pub encode_u_type : ℕ → ℕ → ℕ → ℕ
encode_u_type imm rd op =
    bit_or (bit_or (bit_and imm 0xffff_f000) (shl32 (bit_and rd 0x1f) 7)) (bit_and op 0x7f)

unfoldable pub encode_j_type : ℕ → ℕ → ℕ → ℕ
encode_j_type imm rd op =
    bit_or
      (bit_or
        (bit_or
          (bit_or
            (bit_or (shl32 (bit_and (shr32 imm 20) 0x1) 31)
              (shl32 (bit_and (shr32 imm 1) 0x3ff) 21))
            (shl32 (bit_and (shr32 imm 11) 0x1) 20))
          (shl32 (bit_and (shr32 imm 12) 0xff) 12))
        (shl32 (bit_and rd 0x1f) 7))
      (bit_and op 0x7f)

-- ===== src/Opgen/Shapes.antt =====
-- The fields of the words that the encoding helpers of the riscv_*_opgen.hpp headers make.
use rv32_complete_v.Common.Fields.{bits, bits_lem}
use rv32_complete_v.Common.Encode.{Fields, r_type, r_type-Fields}
use rv32_complete_v.Opgen.Encode.{
  encode_r_type, encode_i_type, encode_s_type, encode_b_type, encode_u_type, encode_j_type,
}
use rv32_complete_v.Prelude.{
  bit_or_multiple, ℕ, ◌+◌, ◌*◌, ◌/◌, ◌%◌, ◌^◌, ◌<◌, bit_and, bit_or, ◌≡◌, refl, arith, bit_or_add,
  bit_and_mask, shl32, shr32, bit_and_shift,
}

encode_r_type-eq :
    (funct7 rs2 rs1 funct3 rd op : ℕ)
    → encode_r_type funct7 rs2 rs1 funct3 rd op
      ≡ r_type (funct7 % 128) rs2 rs1 (funct3 % 8) rd (op % 128)
unfolding encode_r_type r_type
encode_r_type-eq funct7 rs2 rs1 funct3 rd op =
    rw (bit_and_mask 7 funct7, bit_and_mask 3 funct3, bit_and_mask 7 op) refl

pub encode_r_type-Fields :
    (funct7 rs2 rs1 funct3 rd op : ℕ)
    → Fields
        (encode_r_type funct7 rs2 rs1 funct3 rd op)
        (op % 128)
        (rd % 32)
        (funct3 % 8)
        (rs1 % 32)
        (rs2 % 32)
        (funct7 % 128)
encode_r_type-Fields funct7 rs2 rs1 funct3 rd op =
    rw (encode_r_type-eq funct7 rs2 rs1 funct3 rd op) (
      r_type-Fields (funct7 % 128) rs2 rs1 (funct3 % 8) rd (op % 128) (omega arith) (omega arith)
        (omega arith))

-- The twelve bits of an immediate as the two upper fields.
imm_fields :
    (imm : ℕ) → shl32 (imm % 4096) 20 ≡ bit_or (shl32 (imm % 4096 / 32) 25) (shl32 (imm % 32) 20)
imm_fields imm =
    rw
      (bit_or_add 25 (shl32 (imm % 4096 / 32) 25) (shl32 (imm % 32) 20) (omega arith) (omega arith))
      (omega arith)

encode_i_type-eq :
    (imm rs1 funct3 rd op : ℕ)
    → encode_i_type imm rs1 funct3 rd op
      ≡ r_type (imm % 4096 / 32) imm rs1 (funct3 % 8) rd (op % 128)
unfolding encode_i_type r_type
encode_i_type-eq imm rs1 funct3 rd op =
    rw
      (
        bit_and_mask 12 imm,
        bit_and_mask 5 imm,
        bit_and_mask 3 funct3,
        bit_and_mask 7 op,
        imm_fields imm,
      )
      refl

pub encode_i_type-Fields :
    (imm rs1 funct3 rd op : ℕ)
    → Fields
        (encode_i_type imm rs1 funct3 rd op)
        (op % 128)
        (rd % 32)
        (funct3 % 8)
        (rs1 % 32)
        (imm % 32)
        (imm % 4096 / 32)
encode_i_type-Fields imm rs1 funct3 rd op = rw (encode_i_type-eq imm rs1 funct3 rd op) (
    r_type-Fields (imm % 4096 / 32) imm rs1 (funct3 % 8) rd (op % 128) (omega arith) (omega arith)
      (omega arith))

upper_bits : (imm : ℕ) → shl32 (imm / 32 % 2 ^ 7 * 2 ^ 5) 20 ≡ shl32 (imm % 4096 / 32) 25
upper_bits imm = omega arith

encode_s_type-eq :
    (imm rs2 rs1 funct3 op : ℕ)
    → encode_s_type imm rs2 rs1 funct3 op
      ≡ r_type (imm % 4096 / 32) rs2 rs1 (funct3 % 8) imm (op % 128)
unfolding encode_s_type r_type
encode_s_type-eq imm rs2 rs1 funct3 op =
    rw
      (
        bit_and_shift 5 imm 0x7f,
        bit_and_mask 7 (imm / 32),
        bit_and_mask 3 funct3,
        bit_and_mask 7 op,
        upper_bits imm,
      )
      refl

pub encode_s_type-Fields :
    (imm rs2 rs1 funct3 op : ℕ)
    → Fields
        (encode_s_type imm rs2 rs1 funct3 op)
        (op % 128)
        (imm % 32)
        (funct3 % 8)
        (rs1 % 32)
        (rs2 % 32)
        (imm % 4096 / 32)
encode_s_type-Fields imm rs2 rs1 funct3 op = rw (encode_s_type-eq imm rs2 rs1 funct3 op) (
    r_type-Fields (imm % 4096 / 32) rs2 rs1 (funct3 % 8) imm (op % 128) (omega arith) (omega arith)
      (omega arith))

-- The two parts of a branch offset in the place of `funct7`, and the two in the place of `rd`.
upper_parts : (a b : ℕ) → a < 2 → b < 64 → bit_or (shl32 a 31) (shl32 b 25) ≡ shl32 (a * 64 + b) 25
upper_parts a b h p =
    rw (bit_or_add 31 (shl32 a 31) (shl32 b 25) (omega arith) (omega arith)) (omega arith)

lower_parts :
    (x c d : ℕ)
    → x % 2 ^ 12 ≡ 0
    → c < 16
    → d < 2
    → bit_or (bit_or x (shl32 c 8)) (shl32 d 7) ≡ bit_or x (shl32 (c * 2 + d) 7)
lower_parts x c d h p q =
    rw
      (
        bit_or_add 12 x (shl32 c 8) h (omega arith),
        bit_or_add 8 (x + shl32 c 8) (shl32 d 7) (omega arith) (omega arith),
        bit_or_add 12 x (shl32 (c * 2 + d) 7) h (omega arith),
      )
      (omega arith)

small : (x : ℕ) → x < 32 → x % 2 ^ 5 ≡ x
small x h = omega arith

-- The four upper fields.
upper_multiple :
    (a b c d : ℕ)
    → bit_or (bit_or (bit_or (shl32 a 25) (shl32 b 20)) (shl32 c 15)) (shl32 d 12) % 2 ^ 12 ≡ 0
upper_multiple a b c d =
    bit_or_multiple 12 (bit_or (bit_or (shl32 a 25) (shl32 b 20)) (shl32 c 15)) (shl32 d 12)
      (bit_or_multiple 12 (bit_or (shl32 a 25) (shl32 b 20)) (shl32 c 15)
        (bit_or_multiple 12 (shl32 a 25) (shl32 b 20) (omega arith) (omega arith)) (omega arith))
      (omega arith)

encode_b_type-eq :
    (imm rs2 rs1 funct3 op : ℕ)
    → encode_b_type imm rs2 rs1 funct3 op
      ≡ r_type
          (imm / 2 ^ 12 % 2 * 64 + imm / 2 ^ 5 % 64)
          rs2
          rs1
          (funct3 % 8)
          (imm / 2 % 16 * 2 + imm / 2 ^ 11 % 2)
          (op % 128)
unfolding encode_b_type r_type
encode_b_type-eq imm rs2 rs1 funct3 op =
    rw
      (
        bit_and_mask 1 (imm / 2 ^ 12),
        bit_and_mask 6 (imm / 2 ^ 5),
        bit_and_mask 4 (imm / 2),
        bit_and_mask 1 (imm / 2 ^ 11),
        bit_and_mask 3 funct3,
        bit_and_mask 7 op,
        bit_and_mask 5 (imm / 2 % 16 * 2 + imm / 2 ^ 11 % 2),
        small (imm / 2 % 16 * 2 + imm / 2 ^ 11 % 2) (omega arith),
        upper_parts (imm / 2 ^ 12 % 2) (imm / 2 ^ 5 % 64) (omega arith) (omega arith),
        lower_parts _ (imm / 2 % 16) (imm / 2 ^ 11 % 2)
            (upper_multiple (imm / 2 ^ 12 % 2 * 64 + imm / 2 ^ 5 % 64) (bit_and rs2 0x1f)
              (bit_and rs1 0x1f) (funct3 % 8))
            (omega arith) (omega arith),
      )
      refl

pub encode_b_type-Fields :
    (imm rs2 rs1 funct3 op : ℕ)
    → Fields
        (encode_b_type imm rs2 rs1 funct3 op)
        (op % 128)
        ((imm / 2 % 16 * 2 + imm / 2 ^ 11 % 2) % 32)
        (funct3 % 8)
        (rs1 % 32)
        (rs2 % 32)
        (imm / 2 ^ 12 % 2 * 64 + imm / 2 ^ 5 % 64)
encode_b_type-Fields imm rs2 rs1 funct3 op = rw (encode_b_type-eq imm rs2 rs1 funct3 op) (
    r_type-Fields (imm / 2 ^ 12 % 2 * 64 + imm / 2 ^ 5 % 64) rs2 rs1 (funct3 % 8)
      (imm / 2 % 16 * 2 + imm / 2 ^ 11 % 2) (op % 128) (omega arith) (omega arith) (omega arith))

low_bits : (x op : ℕ) → x % 2 ^ 7 ≡ 0 → bits (bit_or x (bit_and op 0x7f)) 6 0 ≡ op % 128
low_bits x op h =
    rw (bit_and_mask 7 op, bit_or_add 7 x (op % 128) h (omega arith))
      (omega (arith, bits_lem (x + op % 128) 6 0 (omega arith)))

pub encode_u_type-op : (imm rd op : ℕ) → bits (encode_u_type imm rd op) 6 0 ≡ op % 128
unfolding encode_u_type
encode_u_type-op imm rd op =
    low_bits (bit_or (bit_and imm 0xffff_f000) (shl32 (bit_and rd 0x1f) 7)) op (
      bit_or_multiple 7 (bit_and imm 0xffff_f000) (shl32 (bit_and rd 0x1f) 7)
        (omega (arith, bit_and_shift 12 imm 0xf_ffff)) (omega arith))

pub encode_j_type-op : (imm rd op : ℕ) → bits (encode_j_type imm rd op) 6 0 ≡ op % 128
unfolding encode_j_type
encode_j_type-op imm rd op = low_bits _ op (
    bit_or_multiple 7 _ (shl32 (bit_and rd 0x1f) 7)
      (bit_or_multiple 7 _ (shl32 (bit_and (shr32 imm 12) 0xff) 12)
        (bit_or_multiple 7 _ (shl32 (bit_and (shr32 imm 11) 0x1) 20)
          (bit_or_multiple 7 (shl32 (bit_and (shr32 imm 20) 0x1) 31)
            (shl32 (bit_and (shr32 imm 1) 0x3ff) 21) (omega arith) (omega arith))
          (omega arith))
        (omega arith))
      (omega arith))

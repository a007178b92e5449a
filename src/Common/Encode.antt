-- ===== src/Common/Encode.antt =====
-- The register-register encoder of the extension modules: `encode::r_type` of riscv_zba.hpp, which
-- riscv_zbb.hpp, riscv_zbs.hpp and riscv_zicond.hpp repeat, and the fields of its words.
use rv32_complete_v.Common.Fields.{bits, bits_lem}
use rv32_complete_v.Prelude.{
  ℕ, ◌+◌, ◌*◌, ◌%◌, ◌^◌, ◌<◌, bit_and, bit_or, ◌≡◌, refl, ◌∙◌, arith, bit_or_add, bit_and_mask,
  shl32,
}

unfoldable pub r_type : ℕ → ℕ → ℕ → ℕ → ℕ → ℕ → ℕ
r_type funct7 rs2 rs1 funct3 rd op =
    bit_or
      (bit_or
        (bit_or
          (bit_or (bit_or (shl32 funct7 25) (shl32 (bit_and rs2 0x1f) 20))
            (shl32 (bit_and rs1 0x1f) 15))
          (shl32 funct3 12))
        (shl32 (bit_and rd 0x1f) 7))
      op

-- A word with the given fields.
pub record Fields (w op rd funct3 rs1 rs2 funct7 : ℕ) : Type 0 where
  pub at_op : bits w 6 0 ≡ op
  pub at_rd : bits w 11 7 ≡ rd
  pub at_funct3 : bits w 14 12 ≡ funct3
  pub at_rs1 : bits w 19 15 ≡ rs1
  pub at_rs2 : bits w 24 20 ≡ rs2
  pub at_funct7 : bits w 31 25 ≡ funct7
  pub at_funct12 : bits w 31 20 ≡ funct7 * 32 + rs2

-- The sum of the shifted fields has them.
pub sum-Fields :
    (op rd funct3 rs1 rs2 funct7 : ℕ)
    → op < 128
    → rd < 32
    → funct3 < 8
    → rs1 < 32
    → rs2 < 32
    → funct7 < 128
    → Fields
        (funct7 * 2 ^ 25 + rs2 * 2 ^ 20 + rs1 * 2 ^ 15 + funct3 * 2 ^ 12 + rd * 2 ^ 7 + op)
        op
        rd
        funct3
        rs1
        rs2
        funct7
sum-Fields op rd funct3 rs1 rs2 funct7 h0 h1 h2 h3 h4 h5 =
    let w : ℕ = funct7 * 2 ^ 25 + rs2 * 2 ^ 20 + rs1 * 2 ^ 15 + funct3 * 2 ^ 12 + rd * 2 ^ 7 + op in
    record {
      at_op = omega (arith, bits_lem w 6 0 (omega arith));
      at_rd = omega (arith, bits_lem w 11 7 (omega arith));
      at_funct3 = omega (arith, bits_lem w 14 12 (omega arith));
      at_rs1 = omega (arith, bits_lem w 19 15 (omega arith));
      at_rs2 = omega (arith, bits_lem w 24 20 (omega arith));
      at_funct7 = omega (arith, bits_lem w 31 25 (omega arith));
      at_funct12 = omega (arith, bits_lem w 31 20 (omega arith));
    }

-- Six fields, from the highest down.
or_chain :
    (a b c d e o : ℕ)
    → a % 2 ^ 25 ≡ 0
    → b < 2 ^ 25
    → b % 2 ^ 20 ≡ 0
    → c < 2 ^ 20
    → c % 2 ^ 15 ≡ 0
    → d < 2 ^ 15
    → d % 2 ^ 12 ≡ 0
    → e < 2 ^ 12
    → e % 2 ^ 7 ≡ 0
    → o < 2 ^ 7
    → bit_or (bit_or (bit_or (bit_or (bit_or a b) c) d) e) o ≡ a + b + c + d + e + o
or_chain a b c d e o ha hb hb' hc hc' hd hd' he he' ho =
    rw
      (
        bit_or_add 25 a b ha hb,
        bit_or_add 20 (a + b) c (omega arith) hc,
        bit_or_add 15 (a + b + c) d (omega arith) hd,
        bit_or_add 12 (a + b + c + d) e (omega arith) he,
        bit_or_add 7 (a + b + c + d + e) o (omega arith) ho,
      )
      refl

pub r_type-eq-sum :
    (funct7 rs2 rs1 funct3 rd op : ℕ)
    → funct7 < 128
    → funct3 < 8
    → op < 128
    → r_type funct7 rs2 rs1 funct3 rd op
      ≡ funct7 * 2 ^ 25
        + rs2 % 32 * 2 ^ 20
        + rs1 % 32 * 2 ^ 15
        + funct3 * 2 ^ 12
        + rd % 32 * 2 ^ 7
        + op
unfolding r_type
r_type-eq-sum funct7 rs2 rs1 funct3 rd op h5 h2 h0 =
    rw (bit_and_mask 5 rs2, bit_and_mask 5 rs1, bit_and_mask 5 rd)
      (or_chain (shl32 funct7 25) (shl32 (rs2 % 32) 20) (shl32 (rs1 % 32) 15) (shl32 funct3 12)
          (shl32 (rd % 32) 7) op (omega arith) (omega arith) (omega arith) (omega arith)
          (omega arith) (omega arith) (omega arith) (omega arith) (omega arith) (omega arith)
        ∙ omega arith)

pub r_type-Fields :
    (funct7 rs2 rs1 funct3 rd op : ℕ)
    → funct7 < 128
    → funct3 < 8
    → op < 128
    → Fields (r_type funct7 rs2 rs1 funct3 rd op) op (rd % 32) funct3 (rs1 % 32) (rs2 % 32) funct7
r_type-Fields funct7 rs2 rs1 funct3 rd op h5 h2 h0 =
    rw (r_type-eq-sum funct7 rs2 rs1 funct3 rd op h5 h2 h0) (
      sum-Fields op (rd % 32) funct3 (rs1 % 32) (rs2 % 32) funct7 h0 (omega arith) h2 (omega arith)
        (omega arith) h5)

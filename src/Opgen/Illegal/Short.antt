-- ===== src/Opgen/Illegal/Short.antt =====
-- riscv_illegal_opgen.hpp: the generators of compressed words.
use rv32_complete_v.Opgen.Source.{Source, Gen, Loop, ◌>>=◌, pure, reg, choice}
use rv32_complete_v.Opgen.Illegal.{after, reg_until}
use rv32_complete_v.Prelude.{ℕ, bit_and, bit_or, not, ◌||◌, [], ◌∷◌, ◌==◌, if◌then◌else◌, shl32}

module _ {G : Type 0} (rng : Source G) where
  unfoldable pub gen_c_quad0_bad_funct3 : Gen G ℕ
  gen_c_quad0_bad_funct3 = do
    f3 ← choice rng (0b001 ∷ 0b100 ∷ 0b101 ∷ []) 2
    b ← rng.bits32
    pure (bit_or (bit_or (shl32 f3 13) (bit_and b 0x1ffc)) 0b00)

  unfoldable pub gen_c_addi4spn_zero : Gen G ℕ
  gen_c_addi4spn_zero = do pure (shl32 (bit_and (← reg rng) 0x7) 2)

  unfoldable pub gen_c_lwsp_rd0 : Gen G ℕ
  gen_c_lwsp_rd0 = do
    b ← rng.bits32
    r ← reg rng
    pure (
        bit_or
          (bit_or (bit_or (shl32 0b010 13) (shl32 (bit_and b 1) 12)) (shl32 (bit_and r 0x1f) 2))
          0b10)

  unfoldable pub gen_c_jr_rs1_0 : Gen G ℕ
  gen_c_jr_rs1_0 = pure (bit_or (shl32 0b100 13) 0b10)

  -- The three fields of C.SRLI and C.SRAI, and the two of C.SLLI.
  unfoldable pub c_right_shift : Gen G ℕ
  c_right_shift = do
    funct2 ← rng.uniform 0 1
    rd ← reg rng
    amount ← reg rng
    pure (
        bit_or
          (bit_or
            (bit_or (bit_or (bit_or (shl32 0b100 13) (shl32 1 12)) (shl32 funct2 10))
              (shl32 (bit_and rd 0x7) 7))
            (shl32 (bit_and amount 0x1f) 2))
          0b01)

  unfoldable pub c_left_shift : Gen G ℕ
  c_left_shift = do
    rd ← reg rng
    amount ← reg rng
    pure (
        bit_or
          (bit_or (bit_or (shl32 1 12) (shl32 (bit_and rd 0x1f) 7)) (shl32 (bit_and amount 0x1f) 2))
          0b10)

  unfoldable pub gen_c_shift_shamt5 : Gen G ℕ
  unfolding c_right_shift c_left_shift
  gen_c_shift_shamt5 = do right ← rng.chance 50; if right then c_right_shift else c_left_shift

  unfoldable pub gen_c_alu_funct1 : Gen G ℕ
  gen_c_alu_funct1 = do
    rd ← reg rng
    funct2 ← rng.uniform 0 3
    rs2 ← reg rng
    pure (
        bit_or
          (bit_or
            (bit_or
              (bit_or (bit_or (bit_or (shl32 0b100 13) (shl32 1 12)) (shl32 0b11 10))
                (shl32 (bit_and rd 0x7) 7))
              (shl32 funct2 5))
            (shl32 (bit_and rs2 0x7) 2))
          0b01)

  unfoldable pub lui_word : ℕ → Gen G ℕ
  lui_word rd = pure (bit_or (bit_or (shl32 0b011 13) (shl32 rd 7)) 0b01)

  unfoldable pub gen_c_lui_zero : ℕ → Loop G ℕ
  unfolding reg_until lui_word
  gen_c_lui_zero fuel g = after (reg_until rng (λ rd. not (rd == 0 || rd == 2)) fuel g) lui_word

  unfoldable pub gen_c_addi16sp_zero : Gen G ℕ
  gen_c_addi16sp_zero = pure 0x6101

  unfoldable pub gen_c_quad2_bad_funct3 : Gen G ℕ
  gen_c_quad2_bad_funct3 = do
    f3 ← choice rng (0b001 ∷ 0b101 ∷ []) 1
    b ← rng.bits32
    pure (bit_or (bit_or (shl32 f3 13) (bit_and b 0x1ffc)) 0b10)

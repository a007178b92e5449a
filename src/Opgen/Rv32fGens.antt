-- ===== src/Opgen/Rv32fGens.antt =====
-- riscv_rv32f_opgen.hpp: the generators of one instruction each.
use rv32_complete_v.Opgen.Source.{Source, Gen, ◌>>=◌, pure, imm12, choice}
use rv32_complete_v.Opgen.Encode.{encode_r_type, encode_i_type, encode_s_type}
use rv32_complete_v.Prelude.{ℕ, [], ◌∷◌, bit_or, bit_and, shl32}

unfoldable pub encode_r4_type : ℕ → ℕ → ℕ → ℕ → ℕ → ℕ → ℕ
encode_r4_type rs3 rs2 rs1 rm rd op =
    bit_or
      (bit_or
        (bit_or
          (bit_or
            (bit_or (bit_or (shl32 (bit_and rs3 0x1f) 27) (shl32 0b00 25))
              (shl32 (bit_and rs2 0x1f) 20))
            (shl32 (bit_and rs1 0x1f) 15))
          (shl32 (bit_and rm 0x7) 12))
        (shl32 (bit_and rd 0x1f) 7))
      (bit_and op 0x7f)

module _ {G : Type 0} (rng : Source G) where
  unfoldable pub ireg : Gen G ℕ
  ireg = rng.uniform 0 31

  unfoldable pub freg : Gen G ℕ
  freg = rng.uniform 0 31

  unfoldable pub rm : Gen G ℕ
  unfolding choice
  rm = choice rng (0 ∷ 1 ∷ 2 ∷ 3 ∷ 4 ∷ 7 ∷ []) 5

module _ {G : Type 0} (rng : Source G) where
  unfoldable pub gen_flw : Gen G ℕ
  gen_flw = do pure (encode_i_type (← imm12 rng) (← ireg rng) 0b010 (← freg rng) 0b0000111)

  unfoldable pub gen_fsw : Gen G ℕ
  gen_fsw = do pure (encode_s_type (← imm12 rng) (← freg rng) (← ireg rng) 0b010 0b0100111)

  unfoldable pub gen_fadd_s : Gen G ℕ
  gen_fadd_s = do
    pure (encode_r_type 0b0000000 (← freg rng) (← freg rng) (← rm rng) (← freg rng) 0b1010011)

  unfoldable pub gen_fsub_s : Gen G ℕ
  gen_fsub_s = do
    pure (encode_r_type 0b0000100 (← freg rng) (← freg rng) (← rm rng) (← freg rng) 0b1010011)

  unfoldable pub gen_fmul_s : Gen G ℕ
  gen_fmul_s = do
    pure (encode_r_type 0b0001000 (← freg rng) (← freg rng) (← rm rng) (← freg rng) 0b1010011)

  unfoldable pub gen_fdiv_s : Gen G ℕ
  gen_fdiv_s = do
    pure (encode_r_type 0b0001100 (← freg rng) (← freg rng) (← rm rng) (← freg rng) 0b1010011)

  unfoldable pub gen_fsqrt_s : Gen G ℕ
  gen_fsqrt_s = do pure (encode_r_type 0b0101100 0 (← freg rng) (← rm rng) (← freg rng) 0b1010011)

  unfoldable pub gen_fmin_s : Gen G ℕ
  gen_fmin_s = do
    pure (encode_r_type 0b0010100 (← freg rng) (← freg rng) 0b000 (← freg rng) 0b1010011)

  unfoldable pub gen_fmax_s : Gen G ℕ
  gen_fmax_s = do
    pure (encode_r_type 0b0010100 (← freg rng) (← freg rng) 0b001 (← freg rng) 0b1010011)

  unfoldable pub gen_fmadd_s : Gen G ℕ
  gen_fmadd_s = do
    pure (encode_r4_type (← freg rng) (← freg rng) (← freg rng) (← rm rng) (← freg rng) 0b1000011)

  unfoldable pub gen_fmsub_s : Gen G ℕ
  gen_fmsub_s = do
    pure (encode_r4_type (← freg rng) (← freg rng) (← freg rng) (← rm rng) (← freg rng) 0b1000111)

  unfoldable pub gen_fnmadd_s : Gen G ℕ
  gen_fnmadd_s = do
    pure (encode_r4_type (← freg rng) (← freg rng) (← freg rng) (← rm rng) (← freg rng) 0b1001111)

  unfoldable pub gen_fnmsub_s : Gen G ℕ
  gen_fnmsub_s = do
    pure (encode_r4_type (← freg rng) (← freg rng) (← freg rng) (← rm rng) (← freg rng) 0b1001011)

  unfoldable pub gen_fcvt_w_s : Gen G ℕ
  gen_fcvt_w_s = do pure (encode_r_type 0b1100000 0 (← freg rng) (← rm rng) (← ireg rng) 0b1010011)

  unfoldable pub gen_fcvt_wu_s : Gen G ℕ
  gen_fcvt_wu_s = do pure (encode_r_type 0b1100000 1 (← freg rng) (← rm rng) (← ireg rng) 0b1010011)

  unfoldable pub gen_fcvt_s_w : Gen G ℕ
  gen_fcvt_s_w = do pure (encode_r_type 0b1101000 0 (← ireg rng) (← rm rng) (← freg rng) 0b1010011)

  unfoldable pub gen_fcvt_s_wu : Gen G ℕ
  gen_fcvt_s_wu = do pure (encode_r_type 0b1101000 1 (← ireg rng) (← rm rng) (← freg rng) 0b1010011)

  unfoldable pub gen_fmv_x_w : Gen G ℕ
  gen_fmv_x_w = do pure (encode_r_type 0b1110000 0 (← freg rng) 0b000 (← ireg rng) 0b1010011)

  unfoldable pub gen_fmv_w_x : Gen G ℕ
  gen_fmv_w_x = do pure (encode_r_type 0b1111000 0 (← ireg rng) 0b000 (← freg rng) 0b1010011)

  unfoldable pub gen_feq_s : Gen G ℕ
  gen_feq_s = do
    pure (encode_r_type 0b1010000 (← freg rng) (← freg rng) 0b010 (← ireg rng) 0b1010011)

  unfoldable pub gen_flt_s : Gen G ℕ
  gen_flt_s = do
    pure (encode_r_type 0b1010000 (← freg rng) (← freg rng) 0b001 (← ireg rng) 0b1010011)

  unfoldable pub gen_fle_s : Gen G ℕ
  gen_fle_s = do
    pure (encode_r_type 0b1010000 (← freg rng) (← freg rng) 0b000 (← ireg rng) 0b1010011)

  unfoldable pub gen_fsgnj_s : Gen G ℕ
  gen_fsgnj_s = do
    pure (encode_r_type 0b0010000 (← freg rng) (← freg rng) 0b000 (← freg rng) 0b1010011)

  unfoldable pub gen_fsgnjn_s : Gen G ℕ
  gen_fsgnjn_s = do
    pure (encode_r_type 0b0010000 (← freg rng) (← freg rng) 0b001 (← freg rng) 0b1010011)

  unfoldable pub gen_fsgnjx_s : Gen G ℕ
  gen_fsgnjx_s = do
    pure (encode_r_type 0b0010000 (← freg rng) (← freg rng) 0b010 (← freg rng) 0b1010011)

  unfoldable pub gen_fclass_s : Gen G ℕ
  gen_fclass_s = do pure (encode_r_type 0b1110000 0 (← freg rng) 0b001 (← ireg rng) 0b1010011)

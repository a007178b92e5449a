-- ===== src/Opgen/Rv32iGens.antt =====
-- riscv_rv32i_opgen.hpp: the generators of one instruction each.
use rv32_complete_v.Opgen.Source.{
  Source, Gen, ◌>>=◌, pure, reg, shamt, imm12, imm20_upper, branch_offset, jal_offset,
}
use rv32_complete_v.Opgen.Encode.{
  encode_r_type, encode_i_type, encode_s_type, encode_b_type, encode_u_type, encode_j_type,
}
use rv32_complete_v.Prelude.{ℕ, bit_or, shl32, if◌then◌else◌}

module _ {G : Type 0} (rng : Source G) where
  unfoldable pub gen_lui : Gen G ℕ
  gen_lui = do pure (encode_u_type (← imm20_upper rng) (← reg rng) 0b0110111)

  unfoldable pub gen_auipc : Gen G ℕ
  gen_auipc = do pure (encode_u_type (← imm20_upper rng) (← reg rng) 0b0010111)

  unfoldable pub gen_jal : Gen G ℕ
  gen_jal = do pure (encode_j_type (← jal_offset rng) (← reg rng) 0b1101111)

  unfoldable pub gen_jalr : Gen G ℕ
  gen_jalr = do pure (encode_i_type (← imm12 rng) (← reg rng) 0b000 (← reg rng) 0b1100111)

  unfoldable pub gen_beq : Gen G ℕ
  gen_beq = do pure (encode_b_type (← branch_offset rng) (← reg rng) (← reg rng) 0b000 0b1100011)

  unfoldable pub gen_bne : Gen G ℕ
  gen_bne = do pure (encode_b_type (← branch_offset rng) (← reg rng) (← reg rng) 0b001 0b1100011)

  unfoldable pub gen_blt : Gen G ℕ
  gen_blt = do pure (encode_b_type (← branch_offset rng) (← reg rng) (← reg rng) 0b100 0b1100011)

  unfoldable pub gen_bge : Gen G ℕ
  gen_bge = do pure (encode_b_type (← branch_offset rng) (← reg rng) (← reg rng) 0b101 0b1100011)

  unfoldable pub gen_bltu : Gen G ℕ
  gen_bltu = do pure (encode_b_type (← branch_offset rng) (← reg rng) (← reg rng) 0b110 0b1100011)

  unfoldable pub gen_bgeu : Gen G ℕ
  gen_bgeu = do pure (encode_b_type (← branch_offset rng) (← reg rng) (← reg rng) 0b111 0b1100011)

  unfoldable pub gen_lb : Gen G ℕ
  gen_lb = do pure (encode_i_type (← imm12 rng) (← reg rng) 0b000 (← reg rng) 0b0000011)

  unfoldable pub gen_lh : Gen G ℕ
  gen_lh = do pure (encode_i_type (← imm12 rng) (← reg rng) 0b001 (← reg rng) 0b0000011)

  unfoldable pub gen_lw : Gen G ℕ
  gen_lw = do pure (encode_i_type (← imm12 rng) (← reg rng) 0b010 (← reg rng) 0b0000011)

  unfoldable pub gen_lbu : Gen G ℕ
  gen_lbu = do pure (encode_i_type (← imm12 rng) (← reg rng) 0b100 (← reg rng) 0b0000011)

  unfoldable pub gen_lhu : Gen G ℕ
  gen_lhu = do pure (encode_i_type (← imm12 rng) (← reg rng) 0b101 (← reg rng) 0b0000011)

  unfoldable pub gen_sb : Gen G ℕ
  gen_sb = do pure (encode_s_type (← imm12 rng) (← reg rng) (← reg rng) 0b000 0b0100011)

  unfoldable pub gen_sh : Gen G ℕ
  gen_sh = do pure (encode_s_type (← imm12 rng) (← reg rng) (← reg rng) 0b001 0b0100011)

  unfoldable pub gen_sw : Gen G ℕ
  gen_sw = do pure (encode_s_type (← imm12 rng) (← reg rng) (← reg rng) 0b010 0b0100011)

  unfoldable pub gen_addi : Gen G ℕ
  gen_addi = do pure (encode_i_type (← imm12 rng) (← reg rng) 0b000 (← reg rng) 0b0010011)

  unfoldable pub gen_slti : Gen G ℕ
  gen_slti = do pure (encode_i_type (← imm12 rng) (← reg rng) 0b010 (← reg rng) 0b0010011)

  unfoldable pub gen_sltiu : Gen G ℕ
  gen_sltiu = do pure (encode_i_type (← imm12 rng) (← reg rng) 0b011 (← reg rng) 0b0010011)

  unfoldable pub gen_xori : Gen G ℕ
  gen_xori = do pure (encode_i_type (← imm12 rng) (← reg rng) 0b100 (← reg rng) 0b0010011)

  unfoldable pub gen_ori : Gen G ℕ
  gen_ori = do pure (encode_i_type (← imm12 rng) (← reg rng) 0b110 (← reg rng) 0b0010011)

  unfoldable pub gen_andi : Gen G ℕ
  gen_andi = do pure (encode_i_type (← imm12 rng) (← reg rng) 0b111 (← reg rng) 0b0010011)

  unfoldable pub gen_slli : Gen G ℕ
  gen_slli = do
    amount ← shamt rng
    pure (encode_i_type amount (← reg rng) 0b001 (← reg rng) 0b0010011)

  unfoldable pub gen_srli : Gen G ℕ
  gen_srli = do
    amount ← shamt rng
    pure (encode_i_type amount (← reg rng) 0b101 (← reg rng) 0b0010011)

  unfoldable pub gen_srai : Gen G ℕ
  gen_srai = do
    amount ← shamt rng
    pure (encode_i_type (bit_or amount 0x400) (← reg rng) 0b101 (← reg rng) 0b0010011)

  unfoldable pub gen_add : Gen G ℕ
  gen_add = do pure (encode_r_type 0b0000000 (← reg rng) (← reg rng) 0b000 (← reg rng) 0b0110011)

  unfoldable pub gen_sub : Gen G ℕ
  gen_sub = do pure (encode_r_type 0b0100000 (← reg rng) (← reg rng) 0b000 (← reg rng) 0b0110011)

  unfoldable pub gen_sll : Gen G ℕ
  gen_sll = do pure (encode_r_type 0b0000000 (← reg rng) (← reg rng) 0b001 (← reg rng) 0b0110011)

  unfoldable pub gen_slt : Gen G ℕ
  gen_slt = do pure (encode_r_type 0b0000000 (← reg rng) (← reg rng) 0b010 (← reg rng) 0b0110011)

  unfoldable pub gen_sltu : Gen G ℕ
  gen_sltu = do pure (encode_r_type 0b0000000 (← reg rng) (← reg rng) 0b011 (← reg rng) 0b0110011)

  unfoldable pub gen_xor : Gen G ℕ
  gen_xor = do pure (encode_r_type 0b0000000 (← reg rng) (← reg rng) 0b100 (← reg rng) 0b0110011)

  unfoldable pub gen_srl : Gen G ℕ
  gen_srl = do pure (encode_r_type 0b0000000 (← reg rng) (← reg rng) 0b101 (← reg rng) 0b0110011)

  unfoldable pub gen_sra : Gen G ℕ
  gen_sra = do pure (encode_r_type 0b0100000 (← reg rng) (← reg rng) 0b101 (← reg rng) 0b0110011)

  unfoldable pub gen_or : Gen G ℕ
  gen_or = do pure (encode_r_type 0b0000000 (← reg rng) (← reg rng) 0b110 (← reg rng) 0b0110011)

  unfoldable pub gen_and : Gen G ℕ
  gen_and = do pure (encode_r_type 0b0000000 (← reg rng) (← reg rng) 0b111 (← reg rng) 0b0110011)

  unfoldable pub gen_fence : Gen G ℕ
  gen_fence = do
    normal ← rng.chance 50
    let fm = if normal then 0b0000 else 0b1000
    pred ← rng.uniform 0 15
    succ ← rng.uniform 0 15
    pure (encode_i_type (bit_or (bit_or (shl32 fm 8) (shl32 pred 4)) succ) 0 0b000 0 0b0001111)

  unfoldable pub gen_ecall : Gen G ℕ
  gen_ecall = pure 0x0000_0073

  unfoldable pub gen_ebreak : Gen G ℕ
  gen_ebreak = pure 0x0010_0073

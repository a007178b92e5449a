-- ===== src/Opgen/Illegal.antt =====
-- riscv_illegal_opgen.hpp: the encoders, and the generators of 32-bit words of the base set. `fuel` bounds the
-- rounds of a rejection loop.
use rv32_complete_v.Opgen.Source.{Source, Gen, Loop, ◌>>=◌, pure, reg, choice}
use rv32_complete_v.Opgen.Generator.{draw_until, legalized, selects, run_entry}
use rv32_complete_v.Prelude.{
  ℕ, zero, suc, ◌+◌, ◌-◌, ◌*◌, ◌/◌, ◌%◌, ◌^◌, ◌≤◌, ◌<◌, min, max, bit_and, bit_or, bit_xor, ◌≡◌,
  refl, sym, ap, ◌∙◌, fun_ext, ◌≢◌, ◌↔◌, ◌⊎◌, inl, inr, Bool, true, false, not, ◌&&◌, ◌||◌, Option,
  none, some, List, [], ◌∷◌, ◌++◌, map, arith, ltb, leb, ◌==◌, ◌!=◌, if◌then◌else◌, ==_iff, ltb_iff,
  Bool-cases, Option-cases, bit, bit-lt, bit-bit_and, bit-bit_or, bit-bit_xor, bit_ext, bit_or-lt,
  bit_xor-lt, bit_and-le, bit_or-zero, bit_or_join, bit_or_add, bit_and_mask, ℤ, pos, negsuc,
  pos_part, neg_part, sub_ℕ, ◌+ℤ◌, ◌*ℤ◌, ltb_ℤ, neg_ℕ, quot_ℤ, abs_ℕ, rem_ℤ, shr_ℤ, wrap, signed,
  signed32, wrap-signed32, u8, u16, u32, u64, add32, sub32, mul32, shl32, shr32, not32, sra32,
  bit-not32, bit-bit_and-not32, bit_and-lt, not32-lt, table, below, bit_and_pow, half_pow, if_cases,
  if_either, below-at, bit_and_shift, bit_or_multiple,
}
pub mod Float
pub mod Short
pub mod Table
pub mod Rejected
pub mod RejectedFloat
pub mod OpcodeWords
pub mod Words
pub mod FloatWords
pub mod Slots
pub mod SlotWords
pub mod ShortWords
pub mod Random

unfoldable pub enc_r : ℕ → ℕ → ℕ → ℕ → ℕ → ℕ → ℕ
enc_r f7 rs2 rs1 f3 rd op =
    bit_or
      (bit_or
        (bit_or
          (bit_or (bit_or (shl32 (bit_and f7 0x7f) 25) (shl32 (bit_and rs2 0x1f) 20))
            (shl32 (bit_and rs1 0x1f) 15))
          (shl32 (bit_and f3 0x7) 12))
        (shl32 (bit_and rd 0x1f) 7))
      (bit_and op 0x7f)

unfoldable pub enc_i : ℕ → ℕ → ℕ → ℕ → ℕ → ℕ
enc_i imm rs1 f3 rd op =
    bit_or
      (bit_or
        (bit_or (bit_or (shl32 (bit_and imm 0xfff) 20) (shl32 (bit_and rs1 0x1f) 15))
          (shl32 (bit_and f3 0x7) 12))
        (shl32 (bit_and rd 0x1f) 7))
      (bit_and op 0x7f)

-- What a loop found, and the draws after it.
abbrev pub after : {G A B : Type 0} → Option (A × G) → (A → Gen G B) → Option (B × G)
after none f = none
after (some (a, g)) f = some (f a g)

-- The funct3 values that `funct7` leaves to an instruction of the OP slot, as digits.
unfoldable pub op_legal_funct3_mask : ℕ → ℕ
op_legal_funct3_mask f7 =
    if f7 == 0b0000000
    then 0xff
    else if f7 == 0b0100000
    then 0xf1
    else if f7 == 0b0000001
    then 0xff
    else if f7 == 0b0010000
    then 0x54
    else if f7 == 0b0000101
    then 0xf0
    else if f7 == 0b0110000
    then 0x22
    else if f7 == 0b0010100
    then 0x02
    else if f7 == 0b0100100
    then 0x22
    else if f7 == 0b0110100
    then 0x02
    else if f7 == 0b0000111
    then 0xa0
    else if f7 == 0b0000100
    then 0x10
    else 0x00

-- The values of `rs2` that the unary instructions of Zbb have.
unfoldable pub is_unary : ℕ → Bool
is_unary rs2 = rs2 == 0 || rs2 == 1 || rs2 == 2 || rs2 == 4 || rs2 == 5

-- ECALL, EBREAK, MRET, WFI, SRET and SFENCE.VMA.
unfoldable pub is_system_word : ℕ → Bool
is_system_word raw =
    raw == 0x0000_0073
    || raw == 0x0010_0073
    || raw == 0x3020_0073
    || raw == 0x1050_0073
    || raw == 0x1020_0073
    || bit_and raw 0xfe00_7fff == 0x1200_0073

module _ {G : Type 0} (rng : Source G) where
  unfoldable pub gen_all_zeros : Gen G ℕ
  gen_all_zeros = pure 0x0000_0000

  unfoldable pub gen_all_ones : Gen G ℕ
  gen_all_ones = pure 0xffff_ffff

  unfoldable pub gen_reserved_major_opcode : Gen G ℕ
  gen_reserved_major_opcode = do
    b ← rng.bits32
    op ←
        choice rng
          (0b00010 ∷ 0b00110 ∷ 0b00111 ∷ 0b01010 ∷ 0b01110 ∷ 0b01111 ∷ 0b10101 ∷ 0b10110 ∷ 0b10111
            ∷ 0b11010 ∷ 0b11101 ∷ 0b11110 ∷ 0b11111 ∷ [])
          12
    pure (bit_or (bit_or (bit_and b (not32 0x7f)) (shl32 op 2)) 0b11)

  unfoldable pub gen_bad_load : Gen G ℕ
  gen_bad_load = do
    imm ← rng.uniform 0 0xfff
    rs1 ← reg rng
    f3 ← choice rng (0b011 ∷ 0b110 ∷ 0b111 ∷ []) 2
    pure (enc_i imm rs1 f3 (← reg rng) 0b0000011)

  unfoldable pub gen_bad_store : Gen G ℕ
  gen_bad_store = do
    imm ← rng.uniform 0 0xfff
    rs2 ← reg rng
    rs1 ← reg rng
    f3 ← choice rng (0b011 ∷ 0b100 ∷ 0b101 ∷ 0b110 ∷ 0b111 ∷ []) 4
    pure (
        bit_or
          (bit_or
            (bit_or (bit_or (bit_or (shl32 (bit_and imm 0xfe0) 20) (shl32 rs2 20)) (shl32 rs1 15))
              (shl32 f3 12))
            (shl32 (bit_and imm 0x1f) 7))
          0b0100011)

  unfoldable pub gen_bad_branch : Gen G ℕ
  gen_bad_branch = do
    f7 ← rng.uniform 0 0x7f
    rs2 ← reg rng
    rs1 ← reg rng
    f3 ← choice rng (0b010 ∷ 0b011 ∷ []) 1
    pure (enc_r f7 rs2 rs1 f3 (← rng.uniform 0 0x1f) 0b1100011)

  unfoldable pub gen_bad_jalr : Gen G ℕ
  gen_bad_jalr = do
    imm ← rng.uniform 0 0xfff
    rs1 ← reg rng
    f3 ← rng.uniform 1 7
    pure (enc_i imm rs1 f3 (← reg rng) 0b1100111)

  -- The calls of `enc_i` for the OP-IMM slots: `(f7 << 5) | rng.range(0, 31)`, and `f7 << 5 | rs2`.
  unfoldable pub op_imm_shamt : ℕ → ℕ → Gen G ℕ
  op_imm_shamt f3 f7 = do
    amount ← rng.uniform 0 31
    rs1 ← reg rng
    pure (enc_i (bit_or (shl32 f7 5) amount) rs1 f3 (← reg rng) 0b0010011)

  unfoldable pub op_imm_rs2 : ℕ → ℕ → ℕ → Gen G ℕ
  op_imm_rs2 f3 f7 rs2 = do
    rs1 ← reg rng
    pure (enc_i (bit_or (shl32 f7 5) rs2) rs1 f3 (← reg rng) 0b0010011)

  unfoldable pub unassigned : ℕ → List ℕ → ℕ → Gen G ℕ
  unfolding op_imm_shamt
  unassigned f3 f7s last = do f7 ← choice rng f7s last; op_imm_shamt f3 f7

  -- `do { rs2 = rng.reg(); } while (!ok(rs2));`
  unfoldable pub reg_until : (ℕ → Bool) → ℕ → Loop G ℕ
  unfolding draw_until
  reg_until ok fuel = draw_until rng ok 0 31 fuel

  abbrev pub slli_funct7s : List ℕ
  slli_funct7s =
      0b0000010 ∷ 0b0000011 ∷ 0b0000100 ∷ 0b0000101 ∷ 0b0000110 ∷ 0b0000111 ∷ 0b0001000 ∷ 0b0100000
      ∷ 0b1111111 ∷ []

  unfoldable pub gen_bad_slli_slot : ℕ → Loop G ℕ
  unfolding op_imm_shamt op_imm_rs2 unassigned reg_until
  gen_bad_slli_slot fuel g =
      let (k, g') = rng.uniform 0 2 g in
      if k == 0
      then some (op_imm_shamt 0b001 0b0000001 g')
      else if k == 1
      then some (unassigned 0b001 slli_funct7s 8 g')
      else after (reg_until (λ rs2. not (is_unary rs2)) fuel g') (op_imm_rs2 0b001 0b0110000)

  abbrev pub srli_funct7s : List ℕ
  srli_funct7s = 0b0000010 ∷ 0b0000011 ∷ 0b0001000 ∷ 0b0100001 ∷ 0b0110001 ∷ 0b1111111 ∷ []

  unfoldable pub gen_bad_srli_slot : ℕ → Loop G ℕ
  unfolding op_imm_shamt op_imm_rs2 unassigned reg_until
  gen_bad_srli_slot fuel g =
      let (k, g') = rng.uniform 0 3 g in
      if k == 0
      then some (op_imm_shamt 0b101 0b0000001 g')
      else if k == 1
      then some (unassigned 0b101 srli_funct7s 5 g')
      else if k == 2
      then after (reg_until (λ rs2. rs2 != 7) fuel g') (op_imm_rs2 0b101 0b0010100)
      else after (reg_until (λ rs2. rs2 != 24) fuel g') (op_imm_rs2 0b101 0b0110100)

  -- `enc_r` with the registers still to draw.
  unfoldable pub r_word : ℕ → ℕ → ℕ → ℕ → Gen G ℕ
  r_word op f7 f3 rs2 = do rs1 ← reg rng; pure (enc_r f7 rs2 rs1 f3 (← reg rng) op)

  -- The pairs of `funct7` and `funct3`, drawn until the mask does not have one.
  unfoldable pub bad_functs : ℕ → Loop G (ℕ × ℕ)
  bad_functs zero g = none
  bad_functs (suc fuel) g =
      let (f7, g') = rng.uniform 0 0x7f g in
      let (f3, g'') = rng.uniform 0 7 g' in
      let rest = bad_functs fuel g'' in
      if selects (op_legal_funct3_mask f7) f3 then rest else some ((f7, f3), g'')

  unfoldable pub r_word_after : ℕ × ℕ → Gen G ℕ
  unfolding r_word
  r_word_after (f7, f3) = do rs2 ← reg rng; r_word 0b0110011 f7 f3 rs2

  unfoldable pub gen_bad_op : ℕ → Loop G ℕ
  unfolding bad_functs r_word_after r_word reg_until
  gen_bad_op fuel g =
      let (pack, g') = rng.chance 15 g in
      if pack
      then after (reg_until (λ rs2. rs2 != 0) fuel g') (r_word 0b0110011 0b0000100 0b100)
      else after (bad_functs fuel g') r_word_after

  unfoldable pub gen_bad_misc_mem : Gen G ℕ
  gen_bad_misc_mem = do
    imm ← rng.uniform 0 0xfff
    rs1 ← reg rng
    f3 ← rng.uniform 2 7
    pure (enc_i imm rs1 f3 (← reg rng) 0b0001111)

  unfoldable pub gen_bad_system_f3_0 : ℕ → Loop G ℕ
  gen_bad_system_f3_0 zero g = none
  gen_bad_system_f3_0 (suc fuel) g =
      let (f7, g1) = rng.uniform 0 0x7f g in
      let (rs2, g2) = reg rng g1 in
      let (raw, g3) = r_word 0b1110011 f7 0b000 rs2 g2 in
      let rest = gen_bad_system_f3_0 fuel g3 in if is_system_word raw then rest else some (raw, g3)

  unfoldable pub gen_bad_system_f3_4 : Gen G ℕ
  gen_bad_system_f3_4 = do
    imm ← rng.uniform 0 0xfff
    rs1 ← reg rng
    pure (enc_i imm rs1 0b100 (← reg rng) 0b1110011)

  unfoldable pub gen_bad_csr_addr : Gen G ℕ
  gen_bad_csr_addr = do
    addr ← choice rng (0xc03 ∷ 0xb03 ∷ 0x320 ∷ 0x7a0 ∷ 0x7b0 ∷ 0x600 ∷ []) 5
    rs1 ← reg rng
    f3 ← choice rng (0b001 ∷ 0b010 ∷ 0b011 ∷ 0b101 ∷ 0b110 ∷ 0b111 ∷ []) 5
    pure (enc_i addr rs1 f3 (← reg rng) 0b1110011)
